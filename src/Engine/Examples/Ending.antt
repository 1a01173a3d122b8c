-- ===== src/Engine/Examples/Ending.antt =====
-- The end of the small match: the next tick leaves Bob nothing.
use europa_neo.Prelude.{◌≡◌, refl, Option, some, none, for_range, for_range?}
use europa_neo.Engine.Types.{win, TickResult, empty_tick_events}
use europa_neo.Engine.ApplyCommand.{Store}
use europa_neo.Engine.Tick.Frozen.{tick-frozen}
use europa_neo.Engine.Examples.{ann, two_store, two_world, two_world-IsWorld}
use europa_neo.Core.FlowRate.{flow_rate_for_delta}
use europa_neo.Core.Types.{in_bounds}
use europa_neo.Engine.ApplyCommand.{read_pending_orders, with_pending_orders}
use europa_neo.Engine.Attrition.{resolve_two_way_attrition}
use europa_neo.Engine.Capture.{capture_city, capture_cell, resolve_capture}
use europa_neo.Engine.Combat.{
  committed_players, add_garrison, participants, is_contested, sorted_participants, duel,
  duel_outcome, winner_of, fight_two, fight, combat_cell, resolve_combat,
}
use europa_neo.Engine.Decay.{
  reserved_floors, is_fed, has_incoming_same_owner_pipe, decay_cell, resolve_decay,
}
use europa_neo.Engine.Flow.{
  add_tally, max_deductable, pipe_share, deliver, move_troops, transfer, run_pipe, run_pipes,
  flow_cell, flow_buffers, resolve_flow,
}
use europa_neo.Engine.Gun.{resolve_gun_orders, gun_volley}
use europa_neo.Engine.Paratroop.{resolve_paratroop_orders, resolve_paratroop}
use europa_neo.Engine.Pipes.{has_pipe, popcount}
use europa_neo.Engine.Production.{produce_cell, resolve_production}
use europa_neo.Engine.Registry.{compare_utf16, insert_by, sort_by, id_at}
use europa_neo.Engine.Reserves.{reserve_floor}
use europa_neo.Engine.Sort.{sort_orders}
use europa_neo.Engine.Terminal.{
  total, add_total, tally_cell, troops_by_player, cities_by_player, update_player, is_newly_out,
  update_players, alive_players, resolve_terminal,
}
use europa_neo.Engine.Tick.{
  apply_staged_orders, is_terminal, orders_of, positions_of, sorted_positions, record_orders,
  order_phases, battle_phases, decay_phase, run_phases, tick,
}

abbrev result_of : Option (Store × TickResult) → Store × TickResult
result_of (some out) = out
result_of none =
    (two_store, record { world = two_world; events = empty_tick_events; terminal = none })

tick-frozen_example :
    let out = result_of (tick two_store two_world) in
    tick out.0 out.1.world
    ≡ some (
      out.0,
      record { world = out.1.world; events = empty_tick_events; terminal = some (win ann 4) },
    )
unfolding apply_staged_orders for_range for_range? flow_rate_for_delta in_bounds read_pending_orders
    with_pending_orders resolve_two_way_attrition capture_city capture_cell resolve_capture
    committed_players add_garrison participants is_contested sorted_participants duel duel_outcome
    winner_of fight_two fight combat_cell resolve_combat reserved_floors is_fed
    has_incoming_same_owner_pipe decay_cell resolve_decay add_tally max_deductable pipe_share
    deliver move_troops transfer run_pipe run_pipes flow_cell flow_buffers resolve_flow
    resolve_gun_orders gun_volley resolve_paratroop_orders resolve_paratroop has_pipe popcount
    produce_cell resolve_production compare_utf16 insert_by sort_by id_at reserve_floor sort_orders
    total add_total tally_cell troops_by_player cities_by_player update_player is_newly_out
    update_players alive_players resolve_terminal is_terminal orders_of positions_of
    sorted_positions record_orders order_phases battle_phases decay_phase run_phases tick
tick-frozen_example =
    tick-frozen two_store two_world (result_of (tick two_store two_world)) (win ann 3)
      two_world-IsWorld refl refl refl
