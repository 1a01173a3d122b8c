-- ===== src/Engine/Decay.antt =====
-- packages/engine/src/resolution/decay.ts, and the two loops of tick.ts that prepare it: stacks that
-- no pipe feeds lose troops, down to their reserves. Decay emits no events.
pub mod Laws
use europa_neo.Prelude.{
  ℕ, ◌+◌, ◌-◌, ◌*◌, ◌/◌, ◌%◌, ltb, leb, ◌==◌, if◌then◌else◌, Bool, not, ◌&&◌, ◌||◌, Option, List,
  at, u32, sub32, write32, write8, replicate, for_range,
}
use europa_neo.Core.Types.{Board, Direction, north, east, south, west}
use europa_neo.Core.FlowRate.{EngineConstants}
use europa_neo.Engine.Types.{WorldState}
use europa_neo.Engine.Production.{Troops}
use europa_neo.Engine.Pipes.{has_pipe}
use europa_neo.Engine.Reserves.{reserve_floor}

-- The floors of tick.ts, from the state after capture.
unfoldable pub reserved_floors : WorldState → ℕ → List ℕ
reserved_floors s n =
    for_range n 0
      (λ i floors.
        let count = at s.troop_counts i in
        let pct = at s.reserves_pct i in
        write32 floors i (if ltb 0 pct && ltb 0 count then reserve_floor count pct else 0))
      (replicate n 0)

-- A neighbour at `i` of the same owner with a pipe in direction `d`.
abbrev pub feeds : WorldState → ℕ → ℕ → Direction → Bool
feeds s owner i d = at s.troop_owners i == owner && has_pipe (at s.pipe_masks i) d

-- The check of one cell's neighbours.
unfoldable pub is_fed : WorldState → ℕ → ℕ → Bool
is_fed s w idx =
    let owner = at s.troop_owners idx in
    let x = idx % w in
    let y = idx / w in
    not (owner == 0)
    && ((ltb 0 y && feeds s owner ((y - 1) * w + x) south)
        || (ltb (x + 1) w && feeds s owner (y * w + (x + 1)) west)
        || (ltb (y + 1) w && feeds s owner ((y + 1) * w + x) north)
        || (ltb 0 x && feeds s owner (y * w + (x - 1)) east))

unfoldable pub has_incoming_same_owner_pipe : WorldState → ℕ → ℕ → List ℕ
has_incoming_same_owner_pipe s w n =
    for_range n 0 (λ i flags. write8 flags i (if is_fed s w i then 1 else 0)) (replicate n 0)

unfoldable pub decay_cell : EngineConstants → List ℕ → List ℕ → List ℕ → ℕ → Troops → Troops
decay_cell c city_owners fed floors idx t =
    let count = at t.counts idx in
    let owner = at t.owners idx in
    let floor = at floors idx in
    let next = sub32 count (u32 c.decay_per_tick) in
    let clamped = if ltb next floor then floor else next in
    if count == 0
    then t
    else if owner == 0
    then t
    else if not (at city_owners idx == 0)
    then t
    else if not (at fed idx == 0)
    then t
    else if leb count floor
    then t
    else record {
      counts = write32 t.counts idx clamped;
      owners = if clamped == 0 then write8 t.owners idx 0 else t.owners;
    }

unfoldable pub resolve_decay : WorldState → Board → EngineConstants → List ℕ → List ℕ → WorldState
resolve_decay s board c fed floors =
    let t =
      for_range (board.width * board.height) 0 (decay_cell c s.city_owners fed floors)
        (record { counts = s.troop_counts; owners = s.troop_owners }) in
    record s { troop_counts = t.counts; troop_owners = t.owners }
