-- ===== src/Engine/Examples/Match.antt =====
-- Runs of the small match.
use europa_neo.Prelude.{◌≡◌, ◌⊎◌, some, none, Returns, pos}
use europa_neo.Core.Types.{coord, int}
use europa_neo.Engine.Types.{Order, set_reserves, MatchResult, TickResult, empty_tick_events}
use europa_neo.Engine.Validate.{validate_command}
use europa_neo.Engine.ApplyCommand.{Store, apply_command}
use europa_neo.Engine.ApplyCommand.Laws.{IsWorld, IsAnswer, apply_command-IsAnswer}
use europa_neo.Engine.Tick.{is_terminal, tick}
use europa_neo.Engine.Tick.Laws.{Ticked, tick-Ticked}
use europa_neo.Engine.Run.{Match, start, next, command, Run-safe}
use europa_neo.Engine.Examples.{ann, two_store, two_world, two_world-IsWorld}

abbrev two_match : Match
two_match = record { store = two_store; world = two_world }

-- Ann raises the reserves of her stack.
abbrev raise_reserves : Order
raise_reserves = set_reserves ann (coord (0, 0)) (int (pos 9))

abbrev raised : Match
raised = record {
  store = (apply_command two_store two_world raise_reserves).store;
  world = (apply_command two_store two_world raise_reserves).world;
}

Run-safe_example :
    IsWorld raised.store raised.world
    × ((out : Store × TickResult) × (tick raised.store raised.world ≡ some out))
Run-safe_example =
    Run-safe two_match raised two_world-IsWorld
      (next two_match two_match raised (start two_match) (command two_match raise_reserves))

tick-Ticked_example :
    Returns
      (λ out.
        ((m : MatchResult) × (is_terminal two_world ≡ some m)
          × (out ≡ (
            two_store,
            record { world = two_world; events = empty_tick_events; terminal = some m },
          )))
        ⊎ ((is_terminal two_world ≡ none) × Ticked two_store two_world two_world-IsWorld out))
      (tick two_store two_world)
tick-Ticked_example = tick-Ticked two_store two_world two_world-IsWorld

apply_command-IsAnswer_example :
    IsAnswer two_store two_world two_world-IsWorld raise_reserves
      (validate_command two_world raise_reserves)
      (apply_command two_store two_world raise_reserves)
apply_command-IsAnswer_example =
    apply_command-IsAnswer two_store two_world two_world-IsWorld raise_reserves
