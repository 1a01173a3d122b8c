-- ===== src/Engine/Capture.antt =====
-- packages/engine/src/resolution/capture.ts: cities pass to their occupants.
pub mod Laws
use europa_neo.Prelude.{
  ℕ, suc, ◌+◌, ◌-◌, ◌*◌, ◌/◌, ◌%◌, ◌==◌, if◌then◌else◌, Option, none, some, ◌>>=◌, List, at, write8,
  for_range?,
}
use europa_neo.Core.Types.{Board, Coord, coord}
use europa_neo.Core.FlowRate.{EngineConstants}
use europa_neo.Engine.Types.{
  WorldState, TickEvents, PlayerRegistry, empty_tick_events, push_capture_event,
}
use europa_neo.Engine.Registry.{require_id}

abbrev pub idx_to_coord : ℕ → ℕ → Coord
idx_to_coord idx width = coord (idx % width, idx / width)

pub record Captures : Type 0 where
  pub city_owners : List ℕ
  pub events : TickEvents

-- The transfer of a city to the troops on it.
unfoldable pub capture_city : Board → ℕ → PlayerRegistry → ℕ → ℕ → ℕ → Captures → Option Captures
capture_city board tick registry idx city_owner occupant t = do
  from ← require_id registry city_owner
  to ← require_id registry occupant
  some (record {
    city_owners = write8 t.city_owners idx occupant;
    events = push_capture_event t.events (record {
      tick = tick;
      cell = idx_to_coord idx board.width;
      from_owner = from;
      to_owner = to;
    });
  })

unfoldable pub capture_cell :
    WorldState → Board → ℕ → PlayerRegistry → ℕ → Captures → Option Captures
capture_cell s board tick registry idx t =
    let city_owner = at t.city_owners idx in
    let occupant = at s.troop_owners idx in
    if city_owner == 0
    then some t
    else if occupant == 0
    then some t
    else if occupant == city_owner
    then some t
    else capture_city board tick registry idx city_owner occupant t

unfoldable pub resolve_capture :
    WorldState → Board → EngineConstants → ℕ → PlayerRegistry → Option (WorldState × TickEvents)
resolve_capture s board c tick registry = do
  t ←
      for_range? (board.width * board.height) 0 (capture_cell s board tick registry)
        (record { city_owners = s.city_owners; events = empty_tick_events })
  some (record s { city_owners = t.city_owners }, t.events)
