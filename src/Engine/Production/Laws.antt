-- ===== src/Engine/Production/Laws.antt =====
-- What production does to a valid state.
use europa_neo.Prelude.{
  ℕ, ◌+◌, ◌-◌, ◌*◌, ◌≤◌, arith, at, List, for_range_inv, All-at, ltb, if◌then◌else◌, u32,
}
use europa_neo.Core.Types.{Board}
use europa_neo.Core.FlowRate.{EngineConstants}
use europa_neo.Engine.Types.{WorldState}
use europa_neo.Engine.Valid.{AreTroops, IsValid, Fits, AreTroops-write}
use europa_neo.Engine.Production.{Troops, produce_cell, resolve_production}

module _ {n k cap : ℕ} (fits : Fits k cap) (c : EngineConstants) (small : c.city_capacity ≤ cap)
    (cities : List ℕ) (known : (i : ℕ) → at cities i ≤ k) where
  produce_cell-AreTroops :
      (i : ℕ) (t : Troops)
      → AreTroops n k cap t.counts t.owners
      → let u = produce_cell c cities i t in AreTroops n k cap u.counts u.owners
  unfolding produce_cell
  produce_cell-AreTroops i t v = ground (
    arith,
    known i,
    AreTroops-write fits v i
        (at t.counts i
          + (if ltb (u32 c.production_rate) (u32 c.city_capacity - at t.counts i)
              then u32 c.production_rate
              else (u32 c.city_capacity - at t.counts i)))
        (at cities i),
  )

-- Production keeps a state valid, for a city capacity within the cells' capacity.
pub resolve_production-IsValid :
    {n k cap : ℕ} {s : WorldState} (board : Board) (c : EngineConstants)
    → Fits k cap
    → c.city_capacity ≤ cap
    → IsValid n k cap s
    → IsValid n k cap (resolve_production s board c)
unfolding resolve_production
resolve_production-IsValid {n} {k} {cap} {s} board c fits small v = record {
  troops =
      for_range_inv (λ j (t : Troops). AreTroops n k cap t.counts t.owners) _
        (board.width * board.height) 0 (board.width * board.height) _ (omega arith)
        (λ i t _ _ p.
          produce_cell-AreTroops fits c small s.city_owners
            (λ i. All-at (λ o. o ≤ k) s.city_owners i v.cities_known (omega arith)) i t p)
        v.troops;
  masks_size = v.masks_size;
  reserves_size = v.reserves_size;
  cities_size = v.cities_size;
  cities_known = v.cities_known;
  reserves_bounded = v.reserves_bounded;
}
