-- ===== src/Fog/PlayerView.antt =====
-- packages/fog/src/playerView.ts and utils.ts: the payload of a player for a tick, and its queries.
pub mod Hiding
use europa_neo.Prelude.{
  ℕ, ◌==◌, ◌&&◌, ◌||◌, if◌then◌else◌, Bool, true, false, Option, none, some, ◌>>=◌, List, [], ◌∷◌,
  ◌++◌,
}
use europa_neo.Core.Types.{Pos, MatchConfig}
use europa_neo.Core.PlayerId.{PlayerId}
use europa_neo.Engine.Types.{World, TickEvents, empty_tick_events}
use europa_neo.Engine.Read.{CellView, get_cell, for_each_cell}
use europa_neo.Fog.VisibleSet.{resolve_player_owner_byte, compute_visible_set}
use europa_neo.Fog.EventsFilter.{filter_tick_events}

pub record PlayerView : Type 0 where
  pub player : PlayerId
  pub tick : ℕ
  pub visible_cells : List CellView
  pub events : TickEvents
  pub config : MatchConfig

pub record Options : Type 0 where
  pub spectator : Bool
  pub events : Option TickEvents

-- A copy of each field: values have no aliases here.
abbrev pub snapshot_config : MatchConfig → MatchConfig
snapshot_config config = config

abbrev events_of : Option TickEvents → TickEvents
events_of none = empty_tick_events
events_of (some events) = events

unfoldable pub decode_cells : World → List Pos → Option (List CellView)
decode_cells w [] = some []
decode_cells w (c ∷ cs) = do view ← get_cell w c; views ← decode_cells w cs; some (view ∷ views)

unfoldable pub spectate : World → PlayerId → TickEvents → Option PlayerView
spectate w player events = do
  cells ← for_each_cell w (λ view views. (views ++ view ∷ [], true)) []
  some (record {
    player = player;
    tick = w.tick;
    visible_cells = cells;
    events = filter_tick_events w [] events true player;
    config = snapshot_config w.config;
  })

unfoldable pub look : World → PlayerId → TickEvents → Option PlayerView
unfolding decode_cells
look w player events = do
  visible ← compute_visible_set w player none
  cells ← decode_cells w visible.visible_cells
  some (record {
    player = player;
    tick = w.tick;
    visible_cells = cells;
    events = filter_tick_events w visible.visible_cells events false player;
    config = snapshot_config w.config;
  })

-- What an id that is not registered gets.
abbrev pub empty_view : World → PlayerId → PlayerView
empty_view w player = record {
  player = player;
  tick = w.tick;
  visible_cells = [];
  events = empty_tick_events;
  config = snapshot_config w.config;
}

unfoldable pub compute_player_view : World → PlayerId → Options → Option PlayerView
unfolding spectate look
compute_player_view w player options =
    if options.spectator
    then spectate w player (events_of options.events)
    else elim (resolve_player_owner_byte w player) [
      | none ↦ some (empty_view w player)
      | some _ ↦ look w player (events_of options.events)
    ]

abbrev eq_pos : Pos → Pos → Bool
eq_pos p q = p.0 == q.0 && p.1 == q.1

abbrev find_cell : List CellView → Pos → Option CellView
find_cell [] p = none
find_cell (c ∷ cs) p = if eq_pos c.coord p then some c else find_cell cs p

abbrev has_cell : List CellView → Pos → Bool
has_cell [] p = false
has_cell (c ∷ cs) p = eq_pos c.coord p || has_cell cs p

unfoldable pub is_visible : PlayerView → Pos → Bool
is_visible view p = has_cell view.visible_cells p

unfoldable pub visible_cell_at : PlayerView → Pos → Option CellView
visible_cell_at view p = find_cell view.visible_cells p
