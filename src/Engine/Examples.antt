-- ===== src/Engine/Examples.antt =====
-- The data of the examples: two players on a board of two by two cells.
mod Match
mod Ending
mod Phases
mod Rules
mod Orders
use europa_neo.Prelude.{
  ℕ, ◌≤◌, ◌<◌, ◌≡◌, refl, arith, List, [], ◌∷◌, replicate, length, All, Occupied,
}
use europa_neo.Core.Types.{Board, Cell, land, water, MatchConfig, Coord, coord, Direction, east}
use europa_neo.Core.FlowRate.{engine_constants}
use europa_neo.Core.PlayerId.{PlayerId}
use europa_neo.Engine.Types.{
  World, WorldState, Player, alive, PlayerRegistry, Order, set_pipe, set_reserves, surrender,
  paratroop, gun,
}
use europa_neo.Engine.Valid.{AreTroops, IsValid, Fits}
use europa_neo.Engine.ApplyCommand.{Store}
use europa_neo.Engine.ApplyCommand.Queues.{IsStore}
use europa_neo.Engine.ApplyCommand.Laws.{IsWorld}

abbrev pub ann : PlayerId
ann = replicate 12 b'a'

abbrev pub bob : PlayerId
bob = replicate 12 b'b'

abbrev pub two_players : PlayerRegistry
two_players = record { ids = ann ∷ bob ∷ [] }

abbrev pub small_board : Board
small_board = record {
  width = 2;
  height = 2;
  cells =
      record { x = 0; y = 0; elevation = 5; terrain = land }
      ∷ record { x = 1; y = 0; elevation = 3; terrain = land }
      ∷ record { x = 0; y = 1; elevation = 3; terrain = land }
      ∷ record { x = 1; y = 1; elevation = 0; terrain = water }
      ∷ [];
  cities = [];
}

abbrev pub two_config : MatchConfig
two_config = record {
  board_size = 2;
  player_ids = ann ∷ bob ∷ [];
  tick_interval_ms = 1000;
  seed = 7;
  visibility_radius = 4;
}

-- Ann's city and 20 troops, half of them reserved, with pipes to the east and to the south; to the east
-- a city of Bob's with 4 troops.
abbrev pub two_stacks : WorldState
two_stacks = record {
  troop_counts = 20 ∷ 4 ∷ 0 ∷ 0 ∷ [];
  troop_owners = 1 ∷ 2 ∷ 0 ∷ 0 ∷ [];
  pipe_masks = 6 ∷ 0 ∷ 0 ∷ 0 ∷ [];
  reserves_pct = 5 ∷ 0 ∷ 0 ∷ 0 ∷ [];
  city_owners = 1 ∷ 2 ∷ 0 ∷ 0 ∷ [];
}

pub two_fit : Fits 2 30
two_fit = record { few = omega arith; small = omega arith }

pub two_stacks-IsValid : IsValid 4 2 30 two_stacks
two_stacks-IsValid = record {
  troops = record {
    counts_size = refl;
    owners_size = refl;
    capped = ground arith;
    known = ground arith;
    occupied = ground arith;
  };
  masks_size = refl;
  reserves_size = refl;
  cities_size = refl;
  cities_known = ground arith;
  reserves_bounded = ground arith;
}

abbrev new_player : PlayerId → Player
new_player id = record {
  id = id;
  display_name = id;
  status = alive;
  cities_owned = 1;
  troops_held = 0;
}

abbrev pub two_store : Store
two_store = record { next_ref = 1; queues = [] }

abbrev pub two_world : World
two_world = record {
  ref = 0;
  config = two_config;
  tick = 3;
  board = small_board;
  players = new_player ann ∷ new_player bob ∷ [];
  state = two_stacks;
  rng_seed = 7;
  rng_state = [];
  registry = two_players;
}

pub two_store-IsStore : IsStore two_store
two_store-IsStore = record { staged = tt; made = tt }

pub two_world-IsWorld : IsWorld two_store two_world
two_world-IsWorld = record {
  square = refl;
  few = omega arith;
  state = two_stacks-IsValid;
  store = two_store-IsStore;
  made = omega arith;
}
