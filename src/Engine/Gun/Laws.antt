-- ===== src/Engine/Gun/Laws.antt =====
-- What the guns do to a valid state.
use europa_neo.Prelude.{
  ℕ, ◌+◌, ◌≤◌, inl, inr, arith, at, List, [], ◌∷◌, ◌==◌, ltb, not, if-elim, u32, sub32, write32,
  Option-cases,
}
use europa_neo.Core.Types.{Board, Coord, in_bounds, index}
use europa_neo.Core.FlowRate.{EngineConstants}
use europa_neo.Core.PlayerId.{PlayerId}
use europa_neo.Engine.Types.{
  WorldState, Order, gun, set_pipe, clear_pipe, set_pipes_exclusive, clear_all_pipes, set_reserves,
  paratroop, surrender, PlayerRegistry,
}
use europa_neo.Engine.Registry.{index_of_id}
use europa_neo.Engine.Reserves.{compute_reserves_floor}
use europa_neo.Engine.Reserves.Laws.{compute_reserves_floor-le}
use europa_neo.Engine.Valid.{AreTroops, Fits, capped-at, AreTroops-write, AreTroops-lower}
use europa_neo.Engine.Gun.{
  Volley, lower, hit, shoot, resolve_gun_order, resolve_gun_orders, gun_volley,
}

module _ {n k cap : ℕ} (fits : Fits k cap) where
  lower-AreTroops :
      (i c : ℕ) (v : Volley)
      → AreTroops n k cap v.counts v.owners
      → c ≤ at v.counts i
      → AreTroops n k cap (lower i c v).counts (lower i c v).owners
  lower-AreTroops i c v t h =
      let bound = capped-at fits t i in
      if-elim (λ owners. AreTroops n k cap (write32 v.counts i c) owners) (c == 0)
        (λ gone. AreTroops-write fits t i c 0 (omega arith) (omega arith) (ground arith))
        (λ left. AreTroops-lower fits t i c h)

  hit-AreTroops :
      (c : EngineConstants) (i : ℕ) (v : Volley)
      → AreTroops n k cap v.counts v.owners
      → AreTroops n k cap (hit c i v).counts (hit c i v).owners
  unfolding hit
  hit-AreTroops c i v t =
      if-elim (λ (u : Volley). AreTroops n k cap u.counts u.owners) (ltb 0 (at v.counts i))
        (λ _.
          let bound = capped-at fits t i in
          let small = fits.small in lower-AreTroops i _ v t (ground arith))
        (λ _. t)

  shoot-AreTroops :
      (c : EngineConstants) (reserves : List ℕ) (registry : PlayerRegistry) (order : Order)
      (player : PlayerId) (source : Coord) (src dst number : ℕ) (v : Volley)
      → AreTroops n k cap v.counts v.owners
      → let u = shoot c reserves registry order player source src dst number v in
        AreTroops n k cap u.counts u.owners
  unfolding shoot
  shoot-AreTroops c reserves registry order player source src dst number v t =
      elim (Option-cases (index_of_id registry player)) [
        | inl missing ↦ rw (missing, shoot) t
        | inr (p, found) ↦
            rw (found, shoot)
              (if-elim (λ (u : Volley). AreTroops n k cap u.counts u.owners)
                (not (at v.owners src == p + 1)) (λ _. t)
                (λ _.
                  if-elim (λ (u : Volley). AreTroops n k cap u.counts u.owners)
                    (ltb
                      (sub32 (at v.counts src)
                        (compute_reserves_floor (at v.counts src) (at reserves src)))
                      (u32 c.gun_cost))
                    (λ _. t)
                    (λ rich.
                      let bound = capped-at fits t src in
                      let small = fits.small in
                      let low = compute_reserves_floor-le (at v.counts src) (at reserves src) in
                      hit-AreTroops c dst _ (lower-AreTroops src _ v t (ground arith)))))
      ]

  resolve_gun_order-AreTroops :
      (board : Board) (c : EngineConstants) (reserves : List ℕ) (registry : PlayerRegistry)
      (number : ℕ) (order : Order) (v : Volley)
      → AreTroops n k cap v.counts v.owners
      → let u = resolve_gun_order board c reserves registry number order v in
        AreTroops n k cap u.counts u.owners
  unfolding resolve_gun_order
  resolve_gun_order-AreTroops board c reserves registry number (gun player source target) v t =
      elim (Option-cases (in_bounds board.width board.height source)) [
        | inl off ↦ rw (off, resolve_gun_order) t
        | inr (s, on) ↦ elim (Option-cases (in_bounds board.width board.height target)) [
          | inl off ↦ rw (on, off, resolve_gun_order) t
          | inr (q, on') ↦
              rw (on, on', resolve_gun_order)
                (shoot-AreTroops c reserves registry (gun player source target) player source
                  (index board.width s) (index board.width q) number v t)
        ]
      ]
  resolve_gun_order-AreTroops board c reserves registry number (set_pipe _ _ _) v t = t
  resolve_gun_order-AreTroops board c reserves registry number (clear_pipe _ _ _) v t = t
  resolve_gun_order-AreTroops board c reserves registry number (set_pipes_exclusive _ _ _) v t = t
  resolve_gun_order-AreTroops board c reserves registry number (clear_all_pipes _ _) v t = t
  resolve_gun_order-AreTroops board c reserves registry number (set_reserves _ _ _) v t = t
  resolve_gun_order-AreTroops board c reserves registry number (paratroop _ _ _) v t = t
  resolve_gun_order-AreTroops board c reserves registry number (surrender _) v t = t

  resolve_gun_orders-AreTroops :
      (board : Board) (c : EngineConstants) (reserves : List ℕ) (registry : PlayerRegistry)
      (number : ℕ) (orders : List Order) (v : Volley)
      → AreTroops n k cap v.counts v.owners
      → let u = resolve_gun_orders board c reserves registry number orders v in
        AreTroops n k cap u.counts u.owners
  unfolding resolve_gun_orders
  resolve_gun_orders-AreTroops board c reserves registry number [] v t = t
  resolve_gun_orders-AreTroops board c reserves registry number (o ∷ os) v t =
      resolve_gun_orders-AreTroops board c reserves registry (number + 1) os
        (resolve_gun_order board c reserves registry number o v)
        (resolve_gun_order-AreTroops board c reserves registry number o v t)

  -- A tick's gun orders keep a state valid.
  pub gun_volley-AreTroops :
      (s : WorldState) (board : Board) (c : EngineConstants) (orders : List Order)
      (registry : PlayerRegistry)
      → AreTroops n k cap s.troop_counts s.troop_owners
      → let u = gun_volley s board c orders registry in AreTroops n k cap u.counts u.owners
  unfolding gun_volley
  gun_volley-AreTroops s board c orders registry t =
      resolve_gun_orders-AreTroops board c s.reserves_pct registry 0 orders _ t
