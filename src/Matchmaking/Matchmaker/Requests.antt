-- ===== src/Matchmaking/Matchmaker/Requests.antt =====
-- The requests of createMatch and joinMatch of packages/matchmaking/src/matchmaker.ts, with the validation
-- of the display name. The visibility and the settings of a request are valid here.
use europa_neo.Prelude.{ℕ, Option, none, some, ◌>>=◌}
use europa_neo.Core.Types.{Board}
use europa_neo.Core.PlayerId.{PlayerId}
use europa_neo.Matchmaking.Types.{
  Text, Visibility, MatchSettings, PlayerSession, MatchStatusChanged,
}
use europa_neo.Matchmaking.Handles.{
  TextDefectReason, HandleCheck, valid, invalid, classify_text_defect, checked, trim,
}
use europa_neo.Matchmaking.Matchmaker.{Limits, Matchmaker}
use europa_neo.Matchmaking.Matchmaker.Starts.{Server}
use europa_neo.Matchmaking.Matchmaker.Seats.{
  Admission, create_player_session, create_match, join_match, rejoin_match,
}

pub record NameLimits : Type 0 where
  pub min_length : ℕ
  pub max_length : ℕ

-- What the server knows of the caller: the name as it was sent, the resolved guest and its handle.
pub record Caller : Type 0 where
  pub display_name : Text
  pub player_id : PlayerId
  pub guest_player_id : Option Text
  pub accepted_handle : Option Text

pub data Answer : Type 0 where
  answered : Admission → Answer
  invalid_request : TextDefectReason → Answer

unfoldable pub validate_display_name : NameLimits → Text → HandleCheck
unfolding classify_text_defect
validate_display_name names raw =
    checked (classify_text_defect raw names.min_length names.max_length) (trim raw)

abbrev session_of : Caller → (name session_id : Text) → ℕ → PlayerSession
session_of c name session_id at_ms =
    create_player_session session_id name c.player_id c.guest_player_id c.accepted_handle at_ms

abbrev create_named :
    HandleCheck
    → Limits
    → Matchmaker
    → Caller
    → Visibility
    → MatchSettings
    → (session_id match_id token : Text) → ℕ
    → Option (Matchmaker × Answer)
create_named (invalid reason) limits mm c visibility settings session_id match_id token at_ms =
    some (mm, invalid_request reason)
create_named (valid name) limits mm c visibility settings session_id match_id token at_ms =
    create_match limits mm visibility settings (session_of c name session_id at_ms) match_id token
      at_ms
    >>= λ out. some (out.0, answered out.1)

unfoldable pub create_request :
    NameLimits
    → Limits
    → Matchmaker
    → Caller
    → Visibility
    → MatchSettings
    → (session_id match_id token : Text) → ℕ
    → Option (Matchmaker × Answer)
unfolding validate_display_name
create_request names limits mm c visibility settings session_id match_id token at_ms =
    create_named (validate_display_name names c.display_name) limits mm c visibility settings
      session_id match_id token at_ms

module _ (generate_board : MatchSettings → ℕ → Option Board) (server : Server)
    (emit : MatchStatusChanged → Option (Unit {0})) where
  -- A caller with a token is given its seat back, another one takes a free seat.
  abbrev join_named :
      HandleCheck
      → (reconnect_token : Option Text) → Matchmaker
      → Caller
      → (match_id session_id token : Text) → (fresh_seed at_ms later_ms : ℕ) → Matchmaker × Answer
  join_named (invalid reason) reconnect_token mm c match_id session_id token fresh_seed at_ms
        later_ms =
      (mm, invalid_request reason)
  join_named (valid name) (some held) mm c match_id session_id token fresh_seed at_ms later_ms =
      (mm, answered (rejoin_match mm match_id held))
  join_named (valid name) none mm c match_id session_id token fresh_seed at_ms later_ms =
      let out =
        join_match generate_board server emit mm match_id (session_of c name session_id at_ms) token
          fresh_seed at_ms later_ms in
      (out.0, answered out.1)

  unfoldable pub join_request :
      NameLimits
      → (reconnect_token : Option Text) → Matchmaker
      → Caller
      → (match_id session_id token : Text) → (fresh_seed at_ms later_ms : ℕ) → Matchmaker × Answer
  unfolding validate_display_name
  join_request names reconnect_token mm c match_id session_id token fresh_seed at_ms later_ms =
      join_named (validate_display_name names c.display_name) reconnect_token mm c match_id
        session_id token fresh_seed at_ms later_ms
