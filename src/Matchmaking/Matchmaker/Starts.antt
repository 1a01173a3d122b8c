-- ===== src/Matchmaking/Matchmaker/Starts.antt =====
-- The start of a match: autoStart of packages/matchmaking/src/matchmaker.ts. The board generator of
-- packages/terrain and the networking server, which may throw, are parameters.
use europa_neo.Prelude.{ℕ, zero, suc, ◌+◌, Option, none, some, ◌>>=◌, List, [], ◌∷◌}
use europa_neo.Core.Types.{Board, MatchConfig}
use europa_neo.Core.PlayerId.{PlayerId}
use europa_neo.Engine.Run.{Match}
use europa_neo.Matchmaking.OrderedMap.{get}
use europa_neo.Matchmaking.Types.{Text, MatchSettings, SeatRecord, MatchRecord, MatchStatusChanged}
use europa_neo.Matchmaking.EngineSession.{build_match_config, build_engine_session}
use europa_neo.Matchmaking.Lifecycle.{eq_index, transition_filling_to_running}

-- The seats in order; a missing one throws.
unfoldable pub ordered_seats : MatchRecord → (tries index : ℕ) → Option (List SeatRecord)
ordered_seats m zero index = some []
ordered_seats m (suc tries) index = do
  seat ← get eq_index m.seats index
  rest ← ordered_seats m tries (index + 1)
  some (seat ∷ rest)

abbrev pub player_ids : List SeatRecord → List PlayerId
player_ids [] = []
player_ids (s ∷ ss) = s.player_id ∷ player_ids ss

-- The match's own seed, or a new one.
abbrev pub seed_of : Option ℕ → ℕ → ℕ
seed_of none fresh = fresh
seed_of (some seed) fresh = seed

-- The accepted handle of each seat, or the name it was given.
abbrev pub label_of : Option Text → Text → Text
label_of none name = name
label_of (some handle) name = handle

abbrev pub display_names : List SeatRecord → List Text
display_names [] = []
display_names (s ∷ ss) = label_of s.handle s.display_name ∷ display_names ss

-- What the networking server is asked to do; a call that throws is `none`.
pub record Server : Type 0 where
  pub register_match :
      (match_id : Text) → Match → MatchConfig → (names : List Text) → Option (Unit {0})
  pub attach_player : (match_id : Text) → PlayerId → (token : Text) → Option (Unit {0})
  pub enable_spectators : (match_id : Text) → Option (Unit {0})

-- The loop that attaches each seat; the first call that throws ends it.
unfoldable pub attach_all : Server → (match_id : Text) → List SeatRecord → Option (Unit {0})
attach_all server match_id [] = some tt
attach_all server match_id (seat ∷ seats) =
    let rest = attach_all server match_id seats in
    server.attach_player match_id seat.player_id seat.session_token >>= λ _. rest

module _ (generate_board : MatchSettings → ℕ → Option Board) (server : Server) where
  -- The critical section up to the event of the start, which the caller passes to the listeners: it starts
  -- the match, or fails with a throw; the seed stays with the record.
  unfoldable pub start_session :
      MatchRecord → (seed at_ms : ℕ) → Option (MatchRecord × MatchStatusChanged)
  unfolding ordered_seats attach_all
  start_session m seed at_ms = do
    seats ← ordered_seats m m.settings.player_count 0
    config ← build_match_config m.settings seed (player_ids seats)
    board ← generate_board m.settings seed
    session ← build_engine_session config board
    _ ← server.register_match m.match_id session config (display_names seats)
    _ ← attach_all server m.match_id seats
    _ ← server.enable_spectators m.match_id
    transition_filling_to_running m session at_ms

  -- The record with its seed, and the started record, unless the start fails.
  unfoldable pub auto_start :
      MatchRecord → (fresh_seed at_ms : ℕ) → MatchRecord × Option (MatchRecord × MatchStatusChanged)
  unfolding start_session
  auto_start m fresh_seed at_ms =
      let seed = seed_of m.initial_seed fresh_seed in
      let seeded = record m { initial_seed = some seed } in
      (seeded, start_session seeded seed at_ms)
