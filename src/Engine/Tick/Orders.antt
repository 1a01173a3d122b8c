-- ===== src/Engine/Tick/Orders.antt =====
-- The effects of staged orders on a valid state.
use europa_neo.Prelude.{
  ℕ, ◌<◌, ◌≡◌, refl, ◌∙◌, arith, at, length, length-set, List, [], ◌∷◌, All, All-set, u8, Option,
  none, some, true, pos, negsuc,
}
use europa_neo.Core.Types.{Board, Num, int, other, raw_index}
use europa_neo.Engine.Types.{
  WorldState, Order, gun, set_pipe, clear_pipe, set_pipes_exclusive, clear_all_pipes, set_reserves,
  paratroop, surrender,
}
use europa_neo.Engine.Valid.{IsValid}
use europa_neo.Engine.Validate.{percent_in_range}
use europa_neo.Engine.ApplyCommand.Queues.{IsStaged}
use europa_neo.Engine.Tick.{write_at, to_byte, dispatch_order_effect, apply_staged_orders}

pub length-write_at :
    (xs : List ℕ) (i : Option ℕ) (f : ℕ → ℕ) → length (write_at xs i f) ≡ length xs
length-write_at xs none f = refl
length-write_at xs (some i) f = length-set xs i (u8 (f (at xs i)))

All-write_at :
    (xs : List ℕ) (i : Option ℕ) (v : ℕ)
    → All (λ p. p < 10) xs
    → v < 10
    → All (λ p. p < 10) (write_at xs i (λ _. v))
All-write_at xs none v h b = h
All-write_at xs (some i) v h b = All-set (λ p. p < 10) xs i (u8 v) h (omega arith)

to_byte-lt : (p : Num) → percent_in_range p ≡ true → to_byte p < 10
to_byte-lt (int (pos n)) h = ground arith
to_byte-lt (int (negsuc n)) h = cc
to_byte-lt other h = cc

with_masks :
    {n k cap : ℕ} {s : WorldState} (masks : List ℕ)
    → IsValid n k cap s
    → length masks ≡ length s.pipe_masks
    → IsValid n k cap (record s { pipe_masks = masks })
with_masks masks v e = record {
  troops = v.troops;
  masks_size = e ∙ v.masks_size;
  reserves_size = v.reserves_size;
  cities_size = v.cities_size;
  cities_known = v.cities_known;
  reserves_bounded = v.reserves_bounded;
}

pub dispatch_order_effect-IsValid :
    {n k cap : ℕ} (o : Order) (s : WorldState) (b : Board)
    → IsStaged o
    → IsValid n k cap s
    → IsValid n k cap (dispatch_order_effect o s b)
unfolding dispatch_order_effect
dispatch_order_effect-IsValid (set_pipe _ cell d) s b h v =
    with_masks _ v (length-write_at s.pipe_masks (raw_index b.width cell) _)
dispatch_order_effect-IsValid (clear_pipe _ cell d) s b h v =
    with_masks _ v (length-write_at s.pipe_masks (raw_index b.width cell) _)
dispatch_order_effect-IsValid (set_pipes_exclusive _ cell d) s b h v =
    with_masks _ v (length-write_at s.pipe_masks (raw_index b.width cell) _)
dispatch_order_effect-IsValid (clear_all_pipes _ cell) s b h v =
    with_masks _ v (length-write_at s.pipe_masks (raw_index b.width cell) _)
dispatch_order_effect-IsValid (set_reserves _ cell percent) s b h v = record {
  troops = v.troops;
  masks_size = v.masks_size;
  reserves_size =
      length-write_at s.reserves_pct (raw_index b.width cell) (λ _. to_byte percent)
      ∙ v.reserves_size;
  cities_size = v.cities_size;
  cities_known = v.cities_known;
  reserves_bounded =
      All-write_at s.reserves_pct (raw_index b.width cell) (to_byte percent) v.reserves_bounded
        (to_byte-lt percent h);
}
dispatch_order_effect-IsValid (paratroop _ _ _) s b h v = v
dispatch_order_effect-IsValid (gun _ _ _) s b h v = v
dispatch_order_effect-IsValid (surrender _) s b h v = v

pub apply_staged_orders-IsValid :
    {n k cap : ℕ} (os : List Order) (s : WorldState) (b : Board)
    → All IsStaged os
    → IsValid n k cap s
    → IsValid n k cap (apply_staged_orders os s b)
unfolding apply_staged_orders
apply_staged_orders-IsValid [] s b h v = v
apply_staged_orders-IsValid (o ∷ os) s b h v =
    apply_staged_orders-IsValid os (dispatch_order_effect o s b) b h.1
      (dispatch_order_effect-IsValid o s b h.0 v)
