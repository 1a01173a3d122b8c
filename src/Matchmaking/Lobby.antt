-- ===== src/Matchmaking/Lobby.antt =====
-- packages/matchmaking/src/lobby.ts: the matches that are listed. The age is kept in milliseconds.
pub mod Laws
use europa_neo.Prelude.{
  ℕ, leb, if◌then◌else◌, Bool, true, false, not, ◌&&◌, ◌||◌, Option, none, some, List, [], ◌∷◌, ℤ,
  sub_ℕ,
}
use europa_neo.Matchmaking.OrderedMap.{get, size}
use europa_neo.Matchmaking.Types.{
  Text, Visibility, public, private, MatchStatus, filling, MatchRecord, SeatRecord,
}
use europa_neo.Matchmaking.Lifecycle.{eq_index}

-- `visibility` is always public.
pub record LobbyEntry : Type 0 where
  pub match_id : Text
  pub host_display_name : Text
  pub player_count : ℕ
  pub seats_filled : ℕ
  pub board_size : ℕ
  pub created_at_ms : ℕ
  pub age_ms : ℤ

abbrev pub is_public : Visibility → Bool
is_public public = true
is_public private = false

abbrev pub is_filling : MatchStatus → Bool
is_filling filling = true
is_filling _ = false

abbrev pub is_null : Option ℕ → Bool
is_null none = true
is_null (some _) = false

-- The match has no free seat and was not created with its seats filled.
abbrev pub is_full : MatchRecord → Bool
is_full m = leb m.settings.player_count (size m.seats) && is_null m.initial_seed

abbrev pub entry_of : MatchRecord → ℕ → SeatRecord → LobbyEntry
entry_of m now_ms host = record {
  match_id = m.match_id;
  host_display_name = host.display_name;
  player_count = m.settings.player_count;
  seats_filled = size m.seats;
  board_size = m.settings.board_size;
  created_at_ms = m.created_at_ms;
  age_ms = sub_ℕ now_ms m.created_at_ms;
}

abbrev pub hosted : MatchRecord → ℕ → Option SeatRecord → Option LobbyEntry
hosted m now_ms none = none
hosted m now_ms (some host) = some (entry_of m now_ms host)

unfoldable pub project_lobby_entry : MatchRecord → ℕ → Option LobbyEntry
project_lobby_entry m now_ms =
    if not (is_public m.visibility) || not (is_filling m.status)
    then none
    else if is_full m
    then none
    else hosted m now_ms (get eq_index m.seats 0)

abbrev pub add_entry : Option LobbyEntry → List LobbyEntry → List LobbyEntry
add_entry none entries = entries
add_entry (some e) entries = e ∷ entries

unfoldable pub list_public_matches : List MatchRecord → ℕ → List LobbyEntry
unfolding project_lobby_entry
list_public_matches [] now_ms = []
list_public_matches (m ∷ ms) now_ms =
    add_entry (project_lobby_entry m now_ms) (list_public_matches ms now_ms)
