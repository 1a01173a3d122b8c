-- ===== src/Engine/Paratroop/Laws.antt =====
-- What paratroop orders do to a valid state.
use europa_neo.Prelude.{
  ℕ, ◌+◌, ◌≤◌, refl, arith, at, List, [], ◌∷◌, ◌==◌, ltb, not, sub32, some, Option-cases, inl, inr,
  Returns, Returns-if, Returns-bind, get_elem?,
}
use europa_neo.Core.Types.{Board, Coord, Pos, in_bounds, index, is_land_cell}
use europa_neo.Core.FlowRate.{EngineConstants}
use europa_neo.Core.PlayerId.{PlayerId}
use europa_neo.Engine.Types.{
  WorldState, Order, gun, set_pipe, clear_pipe, set_pipes_exclusive, clear_all_pipes, set_reserves,
  paratroop, surrender, PlayerRegistry, ValidationError, unknown_player, not_owner,
  no_source_troops, water_target, paratroop_range, out_of_bounds,
}
use europa_neo.Engine.Registry.{count, index_of_id}
use europa_neo.Engine.Registry.Lookup.{index_of_id-lt}
use europa_neo.Engine.Reserves.{compute_reserves_floor}
use europa_neo.Engine.Reserves.Laws.{compute_reserves_floor-le}
use europa_neo.Engine.Valid.{IsValid, Fits, capped-at}
use europa_neo.Engine.Paratroop.Landing.{IsDrop, IsDropIn, launch-IsDrop}
use europa_neo.Engine.Paratroop.{
  Drop, Zone, source_spend, refuse, depart, approach, chebyshev, paratroop_max_range,
  resolve_paratroop_order, resolve_paratroop_orders, resolve_paratroop,
}

module _ {n cap : ℕ} (z : Zone) (fits : Fits (count z.registry) cap)
    (fit : z.constants.cell_capacity ≤ cap) where
  refuse-IsDrop :
      (order : Order) (reason : ValidationError) (d : Drop)
      → IsDropIn n cap z d
      → Returns (IsDropIn n cap z) (some (refuse order reason d))
  refuse-IsDrop order reason d v =
      (_, refl, record { troops = v.troops; pipes_size = v.pipes_size })

  depart-IsDrop :
      (order : Order) (player : PlayerId) (source : Coord) (src : ℕ) (target : Pos) (dst number : ℕ)
      (d : Drop)
      → IsDropIn n cap z d
      → Returns (IsDropIn n cap z) (depart z order player source src target dst number d)
  unfolding depart
  depart-IsDrop order player source src target dst number d v =
      elim (Option-cases (index_of_id z.registry player)) [
        | inl missing ↦ rw (missing, depart) (refuse-IsDrop order (unknown_player player) d v)
        | inr (p, found) ↦
            let registered = index_of_id-lt z.registry player p found in
            rw (found, depart)
              (Returns-if (IsDropIn n cap z) (not (at d.owners src == p + 1))
                (λ _. refuse-IsDrop order (not_owner source) d v)
                (λ _.
                  Returns-if (IsDropIn n cap z)
                    (ltb
                      (sub32 (at d.counts src)
                        (compute_reserves_floor (at d.counts src) (at z.reserves src)))
                      (source_spend z.constants))
                    (λ _. refuse-IsDrop order (no_source_troops source) d v)
                    (λ rich.
                      let bound = capped-at fits v.troops src in
                      let small = fits.small in
                      let low = compute_reserves_floor-le (at d.counts src) (at z.reserves src) in
                      launch-IsDrop z fits fit src target dst (p + 1) number d v (omega arith)
                        (omega arith) (ground arith))))
      ]

  approach-IsDrop :
      (player : PlayerId) (source target : Coord) (s t : Pos) (number : ℕ) (d : Drop)
      → IsDropIn n cap z d
      → Returns (IsDropIn n cap z) (approach z player source target s t number d)
  unfolding approach
  approach-IsDrop player source target s t number d v =
      let order = paratroop player source target in
      let P = IsDropIn n cap z in
      Returns-if P (not (is_land_cell (get_elem? z.board.cells (index z.board.width t))))
        (λ _. refuse-IsDrop order (water_target target) d v)
        (λ _.
          Returns-if P (ltb paratroop_max_range (chebyshev s t))
            (λ _. refuse-IsDrop order (paratroop_range source target (chebyshev s t)) d v)
            (λ _. depart-IsDrop order player source _ t _ number d v))

  resolve_paratroop_order-IsDrop :
      (number : ℕ) (order : Order) (d : Drop)
      → IsDropIn n cap z d
      → Returns (IsDropIn n cap z) (resolve_paratroop_order z number order d)
  unfolding resolve_paratroop_order
  resolve_paratroop_order-IsDrop number (paratroop player source target) d v =
      let order = paratroop player source target in
      elim (Option-cases (in_bounds z.board.width z.board.height source)) [
        | inl off ↦
            rw (off, resolve_paratroop_order) (refuse-IsDrop order (out_of_bounds source) d v)
        | inr (s, on) ↦ elim (Option-cases (in_bounds z.board.width z.board.height target)) [
          | inl off ↦
              rw (on, off, resolve_paratroop_order) (refuse-IsDrop order (out_of_bounds target) d v)
          | inr (t, on') ↦
              rw (on, on', resolve_paratroop_order)
                (approach-IsDrop player source target s t number d v)
        ]
      ]
  resolve_paratroop_order-IsDrop number (gun _ _ _) d v = (d, refl, v)
  resolve_paratroop_order-IsDrop number (set_pipe _ _ _) d v = (d, refl, v)
  resolve_paratroop_order-IsDrop number (clear_pipe _ _ _) d v = (d, refl, v)
  resolve_paratroop_order-IsDrop number (set_pipes_exclusive _ _ _) d v = (d, refl, v)
  resolve_paratroop_order-IsDrop number (clear_all_pipes _ _) d v = (d, refl, v)
  resolve_paratroop_order-IsDrop number (set_reserves _ _ _) d v = (d, refl, v)
  resolve_paratroop_order-IsDrop number (surrender _) d v = (d, refl, v)

  pub resolve_paratroop_orders-IsDrop :
      (number : ℕ) (orders : List Order) (d : Drop)
      → IsDropIn n cap z d
      → Returns (IsDropIn n cap z) (resolve_paratroop_orders z number orders d)
  unfolding resolve_paratroop_orders
  resolve_paratroop_orders-IsDrop number [] d v = (d, refl, v)
  resolve_paratroop_orders-IsDrop number (o ∷ os) d v =
      Returns-bind (IsDropIn n cap z) (IsDropIn n cap z)
        (resolve_paratroop_order-IsDrop number o d v)
        (λ e _ w. resolve_paratroop_orders-IsDrop (number + 1) os e w)

-- A tick's paratroop orders do not throw on a valid state, and leave a valid one.
pub resolve_paratroop-IsValid :
    {n cap : ℕ} (s : WorldState) (board : Board) (c : EngineConstants) (orders : List Order)
    (registry : PlayerRegistry) (tick : ℕ)
    → Fits (count registry) cap
    → c.cell_capacity ≤ cap
    → IsValid n (count registry) cap s
    → Returns
        (λ (out : WorldState × Drop). IsValid n (count registry) cap out.0)
        (resolve_paratroop s board c orders registry tick)
unfolding resolve_paratroop
resolve_paratroop-IsValid {n} {cap} s board c orders registry tick fits fit v =
    Returns-bind (IsDrop n (count registry) cap)
      (λ (out : WorldState × Drop). IsValid n (count registry) cap out.0)
      (resolve_paratroop_orders-IsDrop
        (record {
          board = board;
          constants = c;
          reserves = s.reserves_pct;
          registry = registry;
          tick = tick;
        })
        fits fit 0 orders _ (record { troops = v.troops; pipes_size = v.masks_size }))
      (λ d _ w. (
        _,
        refl,
        record {
          troops = w.troops;
          masks_size = w.pipes_size;
          reserves_size = v.reserves_size;
          cities_size = v.cities_size;
          cities_known = v.cities_known;
          reserves_bounded = v.reserves_bounded;
        },
      ))
