-- ===== src/Engine/Examples/Phases.antt =====
-- The phases of a tick, at the small board.
use europa_neo.Prelude.{◌<◌, ◌≡◌, ◌⊎◌, refl, arith, at, [], ◌∷◌, replicate, some, Returns, negsuc}
use europa_neo.Core.Types.{coord, south}
use europa_neo.Core.FlowRate.{engine_constants}
use europa_neo.Engine.Types.{empty_tick_events, WorldState, TickEvents, gun, paratroop}
use europa_neo.Engine.Valid.{AreTroops, IsValid}
use europa_neo.Engine.Production.{resolve_production}
use europa_neo.Engine.Production.Laws.{resolve_production-IsValid}
use europa_neo.Engine.Flow.{resolve_flow, Buffers, TransferParams, max_deductable, move_troops}
use europa_neo.Engine.Reserves.{reserve_floor}
use europa_neo.Engine.Flow.Laws.{Flows, resolve_flow-Flows}
use europa_neo.Engine.Flow.Reserve.{move_troops-below_reserve}
use europa_neo.Engine.Capture.{resolve_capture}
use europa_neo.Engine.Capture.Laws.{Captured, resolve_capture-Captured}
use europa_neo.Engine.Decay.{reserved_floors, has_incoming_same_owner_pipe, resolve_decay}
use europa_neo.Engine.Decay.Laws.{Decayed, resolve_decay-Decayed}
use europa_neo.Engine.Gun.{Volley, shoot, gun_volley}
use europa_neo.Engine.Gun.Laws.{gun_volley-AreTroops}
use europa_neo.Engine.Gun.Shots.{IsRefused, Accepted, shoot-Fired}
use europa_neo.Engine.Paratroop.Drops
use europa_neo.Engine.Paratroop.Drops.{depart-Accepted}
use europa_neo.Engine.Paratroop.{Drop, Zone, depart, resolve_paratroop}
use europa_neo.Engine.Paratroop.Laws.{resolve_paratroop-IsValid}
use europa_neo.Engine.Terminal.{resolve_terminal}
use europa_neo.Engine.Terminal.Outcome.{Ended, resolve_terminal-Ended}
use europa_neo.Engine.Examples.{
  ann, two_players, small_board, two_stacks, two_fit, two_stacks-IsValid, two_world,
}

resolve_production-IsValid_example :
    IsValid 4 2 30 (resolve_production two_stacks small_board engine_constants)
resolve_production-IsValid_example =
    resolve_production-IsValid small_board engine_constants two_fit (omega arith) two_stacks-IsValid

resolve_flow-Flows_example :
    Flows 4 2 30 small_board two_stacks (resolve_flow two_stacks small_board engine_constants)
resolve_flow-Flows_example =
    resolve_flow-Flows two_fit small_board engine_constants (omega arith) refl two_stacks-IsValid

-- At 10 troops, the floor of a source that began the tick with 20.
abbrev at_floor : Buffers
at_floor = record {
  counts = 10 ∷ 4 ∷ 0 ∷ 0 ∷ [];
  owners = 1 ∷ 2 ∷ 0 ∷ 0 ∷ [];
  tally = replicate 16 0;
  committed = replicate 16 0;
}

abbrev south_pipe : TransferParams
south_pipe = record {
  cell = (0, 0);
  direction = south;
  src_owner = 1;
  num_pipes = 2;
  per_pipe = 6;
  pipe_index = 1;
  reserve_floor = 10;
}

half_left : 0 < max_deductable 10 5
unfolding max_deductable reserve_floor
half_left = omega arith

move_troops-below_reserve_example :
    at
      (move_troops engine_constants two_stacks.reserves_pct south_pipe 0 2
        (negsuc 1)
        at_floor).counts
      0
    < 10
move_troops-below_reserve_example =
    move_troops-below_reserve two_stacks.reserves_pct south_pipe 0 2 1 at_floor refl half_left
      (omega arith) (omega arith) (omega arith)

resolve_capture-Captured_example :
    (out : WorldState × TickEvents) × (resolve_capture two_stacks small_board engine_constants 3
        two_players
      ≡ some out)
    × Captured small_board 3 two_players two_fit two_stacks-IsValid out
resolve_capture-Captured_example =
    resolve_capture-Captured small_board 3 two_players two_fit two_stacks-IsValid engine_constants
      refl

resolve_decay-Decayed_example :
    Decayed two_fit two_stacks-IsValid engine_constants (omega arith) 2 (
      resolve_decay two_stacks small_board engine_constants
        (has_incoming_same_owner_pipe two_stacks 2 4)
        (reserved_floors two_stacks 4))
resolve_decay-Decayed_example =
    resolve_decay-Decayed two_fit two_stacks-IsValid engine_constants (omega arith) 2 small_board
      refl

resolve_paratroop-IsValid_example :
    Returns
      (λ (out : WorldState × Drop). IsValid 4 2 30 out.0)
      (resolve_paratroop two_stacks small_board engine_constants
        (paratroop ann (coord (0, 0)) (coord (0, 1)) ∷ [])
        two_players
        3)
resolve_paratroop-IsValid_example =
    resolve_paratroop-IsValid two_stacks small_board engine_constants
      (paratroop ann (coord (0, 0)) (coord (0, 1)) ∷ []) two_players 3 two_fit (omega arith)
      two_stacks-IsValid

-- No reserves: Ann can pay with all of her 20 troops.
abbrev open_zone : Zone
open_zone = record {
  board = small_board;
  constants = engine_constants;
  reserves = replicate 4 0;
  registry = two_players;
  tick = 3;
}

abbrev quiet_drop : Drop
quiet_drop = record {
  counts = two_stacks.troop_counts;
  owners = two_stacks.troop_owners;
  pipes = two_stacks.pipe_masks;
  errors = [];
  successful = [];
  events = empty_tick_events;
}

depart-Accepted_example :
    Returns
      (λ (u : Drop).
        Drops.IsRefused open_zone
          (paratroop ann (coord (0, 0)) (coord (1, 0)))
          ann
          (coord (0, 0))
          0
          quiet_drop
          u
        ⊎ Drops.Accepted open_zone ann 0 1 0 quiet_drop u)
      (depart open_zone
        (paratroop ann (coord (0, 0)) (coord (1, 0)))
        ann
        (coord (0, 0))
        0
        (1, 0)
        1
        0
        quiet_drop)
depart-Accepted_example =
    depart-Accepted open_zone (paratroop ann (coord (0, 0)) (coord (1, 0))) ann (coord (0, 0)) 0
      (1, 0) 1 0 quiet_drop two_fit refl (omega arith)
      (record { troops = two_stacks-IsValid.troops; pipes_size = refl }) (omega arith) (omega arith)

gun_volley-AreTroops_example :
    let u =
      gun_volley two_stacks small_board engine_constants
        (gun ann (coord (0, 0)) (coord (1, 0)) ∷ [])
        two_players in
    AreTroops 4 2 30 u.counts u.owners
gun_volley-AreTroops_example =
    gun_volley-AreTroops two_fit two_stacks small_board engine_constants
      (gun ann (coord (0, 0)) (coord (1, 0)) ∷ []) two_players two_stacks-IsValid.troops

abbrev quiet_volley : Volley
quiet_volley = record {
  counts = two_stacks.troop_counts;
  owners = two_stacks.troop_owners;
  errors = [];
  successful = [];
}

shoot-Fired_example :
    let u =
      shoot engine_constants two_stacks.reserves_pct two_players
        (gun ann (coord (0, 0)) (coord (1, 0)))
        ann
        (coord (0, 0))
        0
        1
        0
        quiet_volley in
    IsRefused engine_constants two_stacks.reserves_pct two_players
      (gun ann (coord (0, 0)) (coord (1, 0)))
      ann
      (coord (0, 0))
      0
      quiet_volley
      u
    ⊎ Accepted engine_constants two_stacks.reserves_pct two_players ann 0 1 0 quiet_volley u
shoot-Fired_example =
    shoot-Fired engine_constants two_stacks.reserves_pct two_players
      (gun ann (coord (0, 0)) (coord (1, 0))) ann (coord (0, 0)) 0 1 0 quiet_volley (omega arith)
      (omega arith) two_fit two_stacks-IsValid.troops (omega arith) (omega arith)

resolve_terminal-Ended_example :
    Returns
      (Ended two_stacks two_world.players 3 two_players)
      (resolve_terminal two_stacks two_world.players engine_constants 3 two_players)
resolve_terminal-Ended_example =
    resolve_terminal-Ended two_stacks two_world.players engine_constants 3 two_players
      two_stacks-IsValid
