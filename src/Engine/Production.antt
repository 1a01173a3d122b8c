-- ===== src/Engine/Production.antt =====
-- packages/engine/src/resolution/production.ts: owned cities make troops.
pub mod Laws
use europa_neo.Prelude.{
  ℕ, ◌+◌, ◌-◌, ◌*◌, ltb, leb, ◌==◌, if◌then◌else◌, List, at, u32, write32, write8, for_range,
}
use europa_neo.Core.Types.{Board}
use europa_neo.Core.FlowRate.{EngineConstants}
use europa_neo.Engine.Types.{WorldState}

pub record Troops : Type 0 where
  pub counts : List ℕ
  pub owners : List ℕ

unfoldable pub produce_cell : EngineConstants → List ℕ → ℕ → Troops → Troops
produce_cell c city_owners i t =
    let owner = at city_owners i in
    let current = at t.counts i in
    let cap = u32 c.city_capacity in
    let rate = u32 c.production_rate in
    let headroom = cap - current in
    let add = if ltb rate headroom then rate else headroom in
    if owner == 0
    then t
    else if leb cap current
    then t
    else record { counts = write32 t.counts i (current + add); owners = write8 t.owners i owner }

unfoldable pub resolve_production : WorldState → Board → EngineConstants → WorldState
resolve_production s board c =
    let t =
      for_range (board.width * board.height) 0 (produce_cell c s.city_owners)
        (record { counts = s.troop_counts; owners = s.troop_owners }) in
    record s { troop_counts = t.counts; troop_owners = t.owners }
