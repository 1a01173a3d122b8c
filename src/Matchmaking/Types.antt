-- ===== src/Matchmaking/Types.antt =====
-- packages/matchmaking/src: contracts/match-types.ts and internal/{matchRecord,seatRecord,playerSession}.ts.
-- Strings are lists of code units; the terrain knobs of the settings, which only the terrain generator
-- reads, are left out.
use europa_neo.Prelude.{ℕ, Option, none, List, [], ◌∷◌, ◌++◌}
use europa_neo.Core.Types.{MatchConfig}
use europa_neo.Core.PlayerId.{PlayerId}
use europa_neo.Engine.Types.{PlayerStatus, MatchResult}
use europa_neo.Engine.Run.{Match}
use europa_neo.Matchmaking.OrderedMap.{OrderedMap}

abbrev pub Text : Type 0
Text = List ℕ

pub data Visibility : Type 0 where
  public private : Visibility

pub data MatchStatus : Type 0 where
  filling running finished collected : MatchStatus

pub record MatchSettings : Type 0 where
  pub player_count : ℕ
  pub board_size : ℕ
  pub tick_interval_ms : ℕ

-- What ended a match: the engine's result, or the forfeit of all its players.
pub data Verdict : Type 0 where
  decided : MatchResult → Verdict
  cancelled : Verdict

pub record FinalPlayer : Type 0 where
  pub id : PlayerId
  pub display_name : Text
  pub status : PlayerStatus
  pub final_troops : ℕ
  pub final_cities : ℕ

pub record MatchResultsRecord : Type 0 where
  pub match_id : Text
  pub tick : ℕ
  pub effective_seed : ℕ
  pub result : Verdict
  pub final_board_hash : Text
  pub final_players : List FinalPlayer

pub record SeatRecord : Type 0 where
  pub seat_index : ℕ
  pub player_session_id : Text
  pub guest_player_id : Option Text
  pub display_name : Text
  pub handle : Option Text
  pub session_token : Text
  pub player_id : PlayerId
  pub connected_at_ms : ℕ
  pub forfeited_at_ms : Option ℕ

pub record PlayerSession : Type 0 where
  pub player_session_id : Text
  pub player_id : PlayerId
  pub display_name : Text
  pub guest_player_id : Option Text
  pub accepted_handle : Option Text
  pub current_match_id : Option Text
  pub current_seat_index : Option ℕ
  pub current_session_token : Option Text
  pub created_at_ms : ℕ
  pub last_seen_at_ms : ℕ

-- The votes are sets; the match that a resolved offer leads to is kept by its id.
pub record RematchOffer : Type 0 where
  pub offer_id : Text
  pub window_expires_at_ms : ℕ
  pub accepted_by : List Text
  pub declined_by : List Text
  pub all_original_player_ids : List Text
  pub new_match_record : Option Text

-- An engine session holds the state of a run of the engine.
pub record MatchRecord : Type 0 where
  pub match_id : Text
  pub visibility : Visibility
  pub status : MatchStatus
  pub settings : MatchSettings
  pub engine_config : Option MatchConfig
  pub seats : OrderedMap ℕ SeatRecord
  pub created_at_ms : ℕ
  pub started_at_ms : Option ℕ
  pub finished_at_ms : Option ℕ
  pub results : Option MatchResultsRecord
  pub rematch : Option RematchOffer
  pub engine_session : Option Match
  pub initial_seed : Option ℕ
  pub last_activity_at_ms : ℕ
  pub join_path : Text

-- `from` is null for a creation.
pub record MatchStatusChanged : Type 0 where
  pub match_id : Text
  pub from : Option MatchStatus
  pub to : MatchStatus
  pub at_ms : ℕ

-- "/join/".
abbrev join_prefix : Text
join_prefix = b'/' ∷ b'j' ∷ b'o' ∷ b'i' ∷ b'n' ∷ b'/' ∷ []

unfoldable pub create_match_record : Text → Visibility → MatchSettings → ℕ → MatchRecord
create_match_record match_id visibility settings created_at_ms = record {
  match_id = match_id;
  visibility = visibility;
  status = filling;
  settings = settings;
  engine_config = none;
  seats = [];
  created_at_ms = created_at_ms;
  started_at_ms = none;
  finished_at_ms = none;
  results = none;
  rematch = none;
  engine_session = none;
  initial_seed = none;
  last_activity_at_ms = created_at_ms;
  join_path = join_prefix ++ match_id;
}

-- The seat of a session, as the three places that seat a player make it.
unfoldable pub create_seat_record : PlayerSession → ℕ → Text → ℕ → SeatRecord
create_seat_record s seat_index session_token connected_at_ms = record {
  seat_index = seat_index;
  player_session_id = s.player_session_id;
  guest_player_id = s.guest_player_id;
  display_name = s.display_name;
  handle = s.accepted_handle;
  session_token = session_token;
  player_id = s.player_id;
  connected_at_ms = connected_at_ms;
  forfeited_at_ms = none;
}
