-- ===== src/Matchmaking/Examples/Starts.antt =====
-- A match on a board of eight by eight starts, and a listener throws.
use europa_neo.Prelude.{
  ℕ, zero, suc, ◌/◌, ◌%◌, ◌≡◌, refl, ap, arith, ◌>>=◌, Option, none, some, List, [], ◌∷◌,
}
use europa_neo.Core.Types.{Board, Cell, MatchConfig, land, coord, in_bounds}
use europa_neo.Engine.Run.{Match}
use europa_neo.Engine.Examples.{ann, bob}
use europa_neo.Engine.Registry.{
  create_player_registry, check_ids, sort_by, insert_by, compare_utf16, index_of_id,
}
use europa_neo.Core.PlayerId.{is_player_id, all_id_chars, is_id_char}
use europa_neo.Engine.Create.{create_world, check_board, check_cells, check_cities, place_cities}
use europa_neo.Matchmaking.OrderedMap.{get, put}
use europa_neo.Matchmaking.Types.{
  filling, running, MatchRecord, MatchStatusChanged, create_seat_record,
}
use europa_neo.Matchmaking.EngineSession.{build_match_config, build_engine_session}
use europa_neo.Matchmaking.Lifecycle.{add_seat_to_filling_match, transition_filling_to_running}
use europa_neo.Matchmaking.Matchmaker.Starts.{auto_start, start_session, ordered_seats, attach_all}
use europa_neo.Matchmaking.Matchmaker.Seats.{join_match, free_seat}
use europa_neo.Matchmaking.Matchmaker.Thrown.{IsLeftRunning, join_match-IsLeftRunning}
use europa_neo.Matchmaking.Examples.{
  first_match, bob_token, bob_session, open_match, bob_seat, ann_seat, two_session, maker_of,
  duel_settings,
}
use europa_neo.Matchmaking.Examples.Lobbies.{willing_server}

-- Land of eight by eight cells, the cell `i - 1` last.
abbrev plain : ℕ → List Cell → List Cell
plain zero cells = cells
plain (suc i) cells =
    plain i (record { x = i % 8; y = i / 8; elevation = i; terrain = land } ∷ cells)

abbrev eight_board : Board
eight_board = record {
  width = 8;
  height = 8;
  cells = plain 64 [];
  cities =
      record { cell = coord (1, 1); owner = 1 } ∷ record { cell = coord (6, 6); owner = 2 } ∷ [];
}

abbrev eight_config : MatchConfig
eight_config = record {
  board_size = 8;
  player_ids = ann ∷ bob ∷ [];
  tick_interval_ms = 1000;
  seed = 7;
  visibility_radius = 4;
}

abbrev eight_match : MatchRecord
eight_match = record open_match { settings = record duel_settings { board_size = 8 } }

abbrev filled : MatchRecord
filled = record eight_match {
  seats = (0, ann_seat) ∷ (1, record bob_seat { connected_at_ms = 5 }) ∷ [];
  initial_seed = some 7;
  last_activity_at_ms = 5;
}

abbrev session_of : Option Match → Match
session_of none = two_session
session_of (some m) = m

abbrev begun : MatchRecord × MatchStatusChanged
begun = (
  record filled {
    status = running;
    started_at_ms = some 6;
    engine_session = some (session_of (build_engine_session eight_config eight_board));
    last_activity_at_ms = 6;
  },
  record { match_id = first_match; from = some filling; to = running; at_ms = 6 },
)

eight_session-runs :
    build_engine_session eight_config eight_board
    ≡ some (session_of (build_engine_session eight_config eight_board))
unfolding build_engine_session create_world check_board check_cells check_cities
    create_player_registry check_ids sort_by insert_by compare_utf16 is_player_id all_id_chars
    is_id_char in_bounds place_cities index_of_id
eight_session-runs = refl

join_match-IsLeftRunning_example : IsLeftRunning eight_match (
    join_match
      (λ _ _. some eight_board)
      willing_server
      (λ _. none)
      (maker_of eight_match)
      first_match
      bob_session
      bob_token
      7
      5
      6)
unfolding free_seat get put add_seat_to_filling_match auto_start start_session ordered_seats
    build_match_config create_seat_record attach_all transition_filling_to_running
join_match-IsLeftRunning_example =
    join_match-IsLeftRunning (λ _ _. some eight_board) willing_server (λ _. none)
      (maker_of eight_match) eight_match bob_session bob_token 7 5 6 1 begun refl refl refl
      (omega arith)
      (ap (λ o. o >>= λ session. transition_filling_to_running filled session 6) eight_session-runs)
      refl
