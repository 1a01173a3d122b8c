-- ===== src/Engine/Gun.antt =====
-- packages/engine/src/resolution/gun.ts: guns spend troops and destroy troops.
pub mod Laws
pub mod Hits
pub mod Shots
use europa_neo.Prelude.{
  ℕ, suc, ◌+◌, ltb, ◌==◌, not, if◌then◌else◌, Option, none, some, List, [], ◌∷◌, ◌++◌, at, u32,
  sub32, write32, write8,
}
use europa_neo.Core.Types.{Board, Coord, Pos, in_bounds, index}
use europa_neo.Core.FlowRate.{EngineConstants}
use europa_neo.Core.PlayerId.{PlayerId}
use europa_neo.Engine.Types.{
  WorldState, Order, gun, set_pipe, clear_pipe, set_pipes_exclusive, clear_all_pipes, set_reserves,
  paratroop, surrender, OrderError, PlayerRegistry, ValidationError, out_of_bounds, unknown_player,
  not_owner, no_source_troops,
}
use europa_neo.Engine.Registry.{index_of_id}
use europa_neo.Engine.Reserves.{compute_reserves_floor}

-- What the loop over the orders carries; `successful` holds positions in the order list.
pub record Volley : Type 0 where
  pub counts : List ℕ
  pub owners : List ℕ
  pub errors : List OrderError
  pub successful : List ℕ

-- Writes a word as a cell's count; a cell that is emptied loses its owner. A difference of two words is 0
-- exactly if its word is.
abbrev pub lower : ℕ → ℕ → Volley → Volley
lower i count v = record v {
  counts = write32 v.counts i count;
  owners = if count == 0 then write8 v.owners i 0 else v.owners;
}

-- The damage at the target.
unfoldable pub hit : EngineConstants → ℕ → Volley → Volley
hit c i v =
    let count = at v.counts i in
    let damage = if ltb (u32 c.gun_damage) count then u32 c.gun_damage else count in
    if ltb 0 count then lower i (sub32 count damage) v else v

-- The checks at the source and, behind them, the shot: `order` is recorded as `number`.
unfoldable pub shoot :
    EngineConstants
    → List ℕ
    → PlayerRegistry
    → Order
    → PlayerId
    → Coord
    → ℕ
    → ℕ
    → ℕ
    → Volley
    → Volley
shoot c reserves registry order player source src dst number v =
    let refuse = λ (reason : ValidationError). record v {
      errors = v.errors ++ record { order = order; reason = reason } ∷ [];
    } in
    let count = at v.counts src in
    let usable = sub32 count (compute_reserves_floor count (at reserves src)) in
    let fired = hit c dst (lower src (sub32 count (u32 c.gun_cost)) v) in
    elim (index_of_id registry player) [
      | none ↦ refuse (unknown_player player)
      | some p ↦
          if not (at v.owners src == p + 1)
          then refuse (not_owner source)
          else if ltb usable (u32 c.gun_cost)
          then refuse (no_source_troops source)
          else record fired { successful = fired.successful ++ number ∷ [] }
    ]

-- One order of the loop; other kinds are ignored.
unfoldable pub resolve_gun_order :
    Board → EngineConstants → List ℕ → PlayerRegistry → ℕ → Order → Volley → Volley
resolve_gun_order board c reserves registry number (gun player source target) v =
    let refuse = λ (reason : ValidationError). record v {
      errors = v.errors ++ record { order = gun player source target; reason = reason } ∷ [];
    } in
    elim (in_bounds board.width board.height source) [
      | none ↦ refuse (out_of_bounds source)
      | some s ↦ elim (in_bounds board.width board.height target) [
        | none ↦ refuse (out_of_bounds target)
        | some t ↦
            shoot c reserves registry (gun player source target) player source (index board.width s)
              (index board.width t) number v
      ]
    ]
resolve_gun_order board c reserves registry number (set_pipe _ _ _) v = v
resolve_gun_order board c reserves registry number (clear_pipe _ _ _) v = v
resolve_gun_order board c reserves registry number (set_pipes_exclusive _ _ _) v = v
resolve_gun_order board c reserves registry number (clear_all_pipes _ _) v = v
resolve_gun_order board c reserves registry number (set_reserves _ _ _) v = v
resolve_gun_order board c reserves registry number (paratroop _ _ _) v = v
resolve_gun_order board c reserves registry number (surrender _) v = v

unfoldable pub resolve_gun_orders :
    Board → EngineConstants → List ℕ → PlayerRegistry → ℕ → List Order → Volley → Volley
resolve_gun_orders board c reserves registry number [] v = v
resolve_gun_orders board c reserves registry number (order ∷ orders) v =
    resolve_gun_orders board c reserves registry (number + 1) orders
      (resolve_gun_order board c reserves registry number order v)

unfoldable pub gun_volley :
    WorldState → Board → EngineConstants → List Order → PlayerRegistry → Volley
gun_volley s board c orders registry =
    resolve_gun_orders board c s.reserves_pct registry 0 orders
      (record { counts = s.troop_counts; owners = s.troop_owners; errors = []; successful = [] })

-- The new state; errors and successes are those of `gun_volley`.
unfoldable pub resolve_gun :
    WorldState → Board → EngineConstants → List Order → PlayerRegistry → WorldState
resolve_gun s board c orders registry =
    let v = gun_volley s board c orders registry in
    record s { troop_counts = v.counts; troop_owners = v.owners }
