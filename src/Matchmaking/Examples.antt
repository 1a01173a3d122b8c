-- ===== src/Matchmaking/Examples.antt =====
-- The data of the examples: a match of Ann's and Bob's from its creation on.
mod Lobbies
mod Endings
mod Guests
mod Starts
use europa_neo.Prelude.{ℕ, none, some, List, [], ◌∷◌}
use europa_neo.Engine.Run.{Match}
use europa_neo.Engine.Examples.{ann, bob, two_store, two_world}
use europa_neo.Matchmaking.Types.{
  Text, public, filling, running, finished, MatchSettings, SeatRecord, PlayerSession, RematchOffer,
  MatchRecord,
}
use europa_neo.Matchmaking.Store.{MatchmakerStore}
use europa_neo.Matchmaking.Matchmaker.{Limits, Matchmaker}

abbrev pub first_match : Text
first_match = b'm' ∷ []

abbrev pub ann_token : Text
ann_token = b't' ∷ b'a' ∷ []

abbrev pub bob_token : Text
bob_token = b't' ∷ b'b' ∷ []

abbrev pub duel_settings : MatchSettings
duel_settings = record { player_count = 2; board_size = 2; tick_interval_ms = 1000 }

abbrev pub ann_session : PlayerSession
ann_session = record {
  player_session_id = b'a' ∷ [];
  player_id = ann;
  display_name = b'A' ∷ [];
  guest_player_id = some ann;
  accepted_handle = some (b'A' ∷ []);
  current_match_id = some first_match;
  current_seat_index = some 0;
  current_session_token = some ann_token;
  created_at_ms = 1;
  last_seen_at_ms = 1;
}

abbrev pub bob_session : PlayerSession
bob_session = record ann_session {
  player_session_id = b'b' ∷ [];
  player_id = bob;
  display_name = b'B' ∷ [];
  guest_player_id = none;
  accepted_handle = none;
  current_match_id = none;
  current_seat_index = none;
  current_session_token = none;
}

abbrev pub ann_seat : SeatRecord
ann_seat = record {
  seat_index = 0;
  player_session_id = b'a' ∷ [];
  guest_player_id = some ann;
  display_name = b'A' ∷ [];
  handle = some (b'A' ∷ []);
  session_token = ann_token;
  player_id = ann;
  connected_at_ms = 1;
  forfeited_at_ms = none;
}

abbrev pub bob_seat : SeatRecord
bob_seat = record ann_seat {
  seat_index = 1;
  player_session_id = b'b' ∷ [];
  guest_player_id = none;
  display_name = b'B' ∷ [];
  handle = none;
  session_token = bob_token;
  player_id = bob;
}

abbrev pub open_match : MatchRecord
open_match = record {
  match_id = first_match;
  visibility = public;
  status = filling;
  settings = duel_settings;
  engine_config = none;
  seats = (0, ann_seat) ∷ [];
  created_at_ms = 1;
  started_at_ms = none;
  finished_at_ms = none;
  results = none;
  rematch = none;
  engine_session = none;
  initial_seed = none;
  last_activity_at_ms = 1;
  join_path = first_match;
}

abbrev pub two_session : Match
two_session = record { store = two_store; world = two_world }

abbrev pub live_match : MatchRecord
live_match = record open_match {
  status = running;
  seats = (0, ann_seat) ∷ (1, bob_seat) ∷ [];
  started_at_ms = some 2;
  engine_session = some two_session;
}

abbrev pub duel_offer : RematchOffer
duel_offer = record {
  offer_id = b'o' ∷ [];
  window_expires_at_ms = 50;
  accepted_by = [];
  declined_by = [];
  all_original_player_ids = (b'a' ∷ []) ∷ (b'b' ∷ []) ∷ [];
  new_match_record = none;
}

abbrev pub over_match : MatchRecord
over_match = record live_match {
  status = finished;
  finished_at_ms = some 20;
  rematch = some duel_offer;
}

abbrev pub store_of : MatchRecord → MatchmakerStore
store_of m = record { matches = (first_match, m) ∷ []; sessions = (b'a' ∷ [], ann_session) ∷ [] }

abbrev pub maker_of : MatchRecord → Matchmaker
maker_of m = record {
  store = store_of m;
  calls = [];
  events = [];
  total_created = 1;
  total_finished = 0;
  total_collected = 0;
  total_forfeits = 0;
  total_rematch_accepted = 0;
  total_rematch_declined = 0;
}

abbrev pub short_limits : Limits
short_limits = record {
  max_concurrent_matches = 4;
  empty_match_ttl_ms = 10;
  results_ttl_ms = 10;
  rematch_window_ms = 30;
}
