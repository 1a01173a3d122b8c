-- ===== src/Matchmaking/Store.antt =====
-- packages/matchmaking/src/store.ts: the matches and the sessions, each by its id. The code's records
-- are shared and changed in place: here a changed record is put back under its id.
pub mod Laws
use europa_neo.Prelude.{Option, List, []}
use europa_neo.Core.PlayerId.{eq_id}
use europa_neo.Matchmaking.OrderedMap.{OrderedMap, get, put, delete, values}
use europa_neo.Matchmaking.Types.{Text, MatchRecord, PlayerSession}

pub record MatchmakerStore : Type 0 where
  pub matches : OrderedMap Text MatchRecord
  pub sessions : OrderedMap Text PlayerSession

abbrev pub create_store : MatchmakerStore
create_store = record { matches = []; sessions = [] }

abbrev pub get_match : MatchmakerStore → Text → Option MatchRecord
get_match st id = get eq_id st.matches id

abbrev pub put_match : MatchmakerStore → MatchRecord → MatchmakerStore
put_match st m = record st { matches = put eq_id st.matches m.match_id m }

abbrev pub delete_match : MatchmakerStore → Text → MatchmakerStore
delete_match st id = record st { matches = delete eq_id st.matches id }

abbrev pub list_matches : MatchmakerStore → List MatchRecord
list_matches st = values st.matches

abbrev pub get_session : MatchmakerStore → Text → Option PlayerSession
get_session st id = get eq_id st.sessions id

abbrev pub put_session : MatchmakerStore → PlayerSession → MatchmakerStore
put_session st s = record st { sessions = put eq_id st.sessions s.player_session_id s }

abbrev pub delete_session : MatchmakerStore → Text → MatchmakerStore
delete_session st id = record st { sessions = delete eq_id st.sessions id }

abbrev pub list_sessions : MatchmakerStore → List PlayerSession
list_sessions st = values st.sessions
