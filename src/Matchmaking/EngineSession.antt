-- ===== src/Matchmaking/EngineSession.antt =====
-- packages/matchmaking/src/engineSession.ts: a match's run of the engine. The table of pending orders is
-- keyed by world objects, and the worlds of two sessions are distinct: each session has its own part.
use europa_neo.Prelude.{ℕ, ◌==◌, if◌then◌else◌, Option, none, some, ◌>>=◌, List, length, []}
use europa_neo.Core.Types.{Board, MatchConfig}
use europa_neo.Core.PlayerId.{PlayerId}
use europa_neo.Engine.Types.{Order, CommandResult, MatchResult, TickResult}
use europa_neo.Engine.Create.{create_world}
use europa_neo.Engine.ApplyCommand.{Store, apply_command}
use europa_neo.Engine.Tick.{tick, is_terminal}
use europa_neo.Engine.Run.{Match}
use europa_neo.Matchmaking.Types.{MatchSettings}

-- ENGINE_CONSTANTS.visibilityRadiusDefault.
abbrev visibility_radius_default : ℕ
visibility_radius_default = 4

unfoldable pub build_match_config : MatchSettings → ℕ → List PlayerId → Option MatchConfig
build_match_config settings seed player_ids =
    if length player_ids == settings.player_count
    then some (record {
      board_size = settings.board_size;
      player_ids = player_ids;
      tick_interval_ms = settings.tick_interval_ms;
      seed = seed;
      visibility_radius = visibility_radius_default;
    })
    else none

abbrev no_orders : Store
no_orders = record { next_ref = 0; queues = [] }

unfoldable pub build_engine_session : MatchConfig → Board → Option Match
build_engine_session config board =
    create_world no_orders config board >>= λ made. some (record { store = made.0; world = made.1 })

unfoldable pub submit : Match → Order → Match × CommandResult
submit m order =
    let applied = apply_command m.store m.world order in
    (record { store = applied.store; world = applied.world }, applied.result)

unfoldable pub advance : Match → Option (Match × TickResult)
advance m =
    tick m.store m.world >>= λ out. some (record { store = out.0; world = out.1.world }, out.1)

unfoldable pub status : Match → Option MatchResult
status m = is_terminal m.world
