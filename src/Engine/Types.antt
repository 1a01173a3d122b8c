-- ===== src/Engine/Types.antt =====
-- packages/engine/src/contracts/engine-types.ts and events.ts: the state, the orders and the events.
use europa_neo.Prelude.{ℕ, List, [], ◌∷◌, ◌++◌, Option}
use europa_neo.Core.Types.{Direction, Num, Coord, Board, MatchConfig}
use europa_neo.Core.PlayerId.{PlayerId}

-- Flat arrays over the cells, row by row; an owner is 0 for none, else a dense index + 1.
pub record WorldState : Type 0 where
  pub troop_counts : List ℕ
  pub troop_owners : List ℕ
  pub pipe_masks : List ℕ
  pub reserves_pct : List ℕ
  pub city_owners : List ℕ

pub data PlayerStatus : Type 0 where
  alive surrendered eliminated : PlayerStatus

pub record Player : Type 0 where
  pub id : PlayerId
  pub display_name : PlayerId
  pub status : PlayerStatus
  pub cities_owned : ℕ
  pub troops_held : ℕ

pub data Order : Type 0 where
  set_pipe clear_pipe set_pipes_exclusive : PlayerId → Coord → Direction → Order
  clear_all_pipes : PlayerId → Coord → Order
  set_reserves : PlayerId → Coord → Num → Order
  paratroop gun : PlayerId → Coord → Coord → Order
  surrender : PlayerId → Order

pub data ValidationError : Type 0 where
  out_of_bounds water_target not_owner no_source_troops : Coord → ValidationError
  paratroop_range : Coord → Coord → ℕ → ValidationError
  already_surrendered unknown_player : PlayerId → ValidationError
  invalid_percent : Num → ValidationError

pub data CommandResult : Type 0 where
  ok : CommandResult
  fail : ValidationError → CommandResult

pub data Winner : Type 0 where
  won_by : PlayerId → Winner
  tie : Winner

pub record CombatEvent : Type 0 where
  pub tick : ℕ
  pub cell : Coord
  pub attacker : PlayerId
  pub defender : PlayerId
  pub attacker_loss : ℕ
  pub defender_loss : ℕ
  pub winner : Winner
  pub attacker_total : ℕ
  pub defender_total : ℕ

-- `isCity` is always true in what the engine emits.
pub record CaptureEvent : Type 0 where
  pub tick : ℕ
  pub cell : Coord
  pub from_owner : PlayerId
  pub to_owner : PlayerId

-- The reason of what the engine emits is always `no_troops_no_cities`.
pub record EliminationEvent : Type 0 where
  pub tick : ℕ
  pub player : PlayerId

pub record AppliedOrderRecord : Type 0 where
  pub tick : ℕ
  pub order : Order
  pub result : CommandResult

pub record OrderError : Type 0 where
  pub order : Order
  pub reason : ValidationError

pub record TickEvents : Type 0 where
  pub combat : List CombatEvent
  pub captures : List CaptureEvent
  pub eliminations : List EliminationEvent
  pub applied_orders : List AppliedOrderRecord
  pub errors : List OrderError

abbrev pub empty_tick_events : TickEvents
empty_tick_events = record {
  combat = [];
  captures = [];
  eliminations = [];
  applied_orders = [];
  errors = [];
}

abbrev pub push_combat_event : TickEvents → CombatEvent → TickEvents
push_combat_event events e = record events { combat = events.combat ++ e ∷ [] }

abbrev pub push_capture_event : TickEvents → CaptureEvent → TickEvents
push_capture_event events e = record events { captures = events.captures ++ e ∷ [] }

abbrev pub push_elimination_event : TickEvents → EliminationEvent → TickEvents
push_elimination_event events e = record events { eliminations = events.eliminations ++ e ∷ [] }

abbrev pub push_applied_order : TickEvents → AppliedOrderRecord → TickEvents
push_applied_order events r = record events { applied_orders = events.applied_orders ++ r ∷ [] }

-- The reason is `last_standing` for a win and `mutual_elimination` for a draw.
pub data MatchResult : Type 0 where
  win : PlayerId → ℕ → MatchResult
  draw : ℕ → MatchResult

pub record PlayerRegistry : Type 0 where
  pub ids : List PlayerId

-- `ref` is the identity of the object, by which the table of pending orders is keyed.
pub record World : Type 0 where
  pub ref : ℕ
  pub config : MatchConfig
  pub tick : ℕ
  pub board : Board
  pub players : List Player
  pub state : WorldState
  pub rng_seed : ℕ
  pub rng_state : List ℕ
  pub registry : PlayerRegistry

pub record TickResult : Type 0 where
  pub world : World
  pub events : TickEvents
  pub terminal : Option MatchResult
