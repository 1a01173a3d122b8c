-- ===== src/Matchmaking/Forfeit.antt =====
-- packages/matchmaking/src/forfeit.ts: what an expired seat means for its match. The calls of the
-- networking server and the events are kept in the order in which they are made; a throw is `none`.
pub mod Laws
use europa_neo.Prelude.{
  ℕ, zero, suc, ◌==◌, if◌then◌else◌, Bool, true, false, Option, none, some, ◌>>=◌, List, [], ◌∷◌,
  ◌++◌,
}
use europa_neo.Core.PlayerId.{PlayerId, eq_id}
use europa_neo.Engine.Types.{Player, alive, PlayerStatus, surrender}
use europa_neo.Engine.Run.{Match}
use europa_neo.Matchmaking.OrderedMap.{put, delete, values, size}
use europa_neo.Matchmaking.Types.{
  Text, MatchStatus, filling, running, finished, collected, cancelled, SeatRecord, PlayerSession,
  MatchRecord, MatchStatusChanged,
}
use europa_neo.Matchmaking.Store.{MatchmakerStore, get_match, put_match, get_session, put_session}
use europa_neo.Matchmaking.EngineSession.{submit}
use europa_neo.Matchmaking.Results.{build_match_results_record}
use europa_neo.Matchmaking.Lifecycle.{eq_index, release_match_sessions, transition_to_collected}

pub data ServerCall : Type 0 where
  detach_player : (match_id : Text) → PlayerId → (session_token : Text) → ServerCall
  unregister_match : (match_id : Text) → ServerCall

pub data ForfeitOutcome : Type 0 where
  surrendered released torn_down : ForfeitOutcome

pub record SeatExpiredResult : Type 0 where
  pub match : MatchRecord
  pub remaining_players : ℕ
  pub outcome : ForfeitOutcome

-- The result is null where nothing is to be done.
pub record Handled : Type 0 where
  pub store : MatchmakerStore
  pub calls : List ServerCall
  pub events : List MatchStatusChanged
  pub result : Option SeatExpiredResult

abbrev pub ignored : MatchmakerStore → Handled
ignored st = record { store = st; calls = []; events = []; result = none }

abbrev pub find_seat : List SeatRecord → Text → Option SeatRecord
find_seat [] token = none
find_seat (s ∷ ss) token = if eq_id s.session_token token then some s else find_seat ss token

abbrev is_alive : PlayerStatus → Bool
is_alive alive = true
is_alive _ = false

abbrev pub count_living : List Player → ℕ
count_living [] = 0
count_living (p ∷ ps) = let rest = count_living ps in if is_alive p.status then suc rest else rest

abbrev pub count_alive : Option Match → ℕ
count_alive none = 0
count_alive (some session) = count_living session.world.players

unfoldable pub handle_all_players_forfeited :
    MatchmakerStore → MatchRecord → Match → List ServerCall → ℕ → Option Handled
handle_all_players_forfeited st m session calls now_ms =
    let results = build_match_results_record m.match_id session.world cancelled m.seats in
    let st' = release_match_sessions st m in
    transition_to_collected m now_ms (some results) >>= λ out. some (record {
      store = put_match st' out.0;
      calls = calls ++ unregister_match m.match_id ∷ [];
      events = out.1 ∷ [];
      result = some (record { match = out.0; remaining_players = 0; outcome = torn_down });
    })

abbrev unbind : MatchmakerStore → Option PlayerSession → MatchmakerStore
unbind st none = st
unbind st (some s) =
    put_session st (record s {
      current_match_id = none;
      current_seat_index = none;
      current_session_token = none;
    })

-- The seat of a filling match is given up.
unfoldable pub release_seat : MatchmakerStore → MatchRecord → SeatRecord → Text → Handled
release_seat st m seat token =
    let m' = record m { seats = delete eq_index m.seats seat.seat_index } in
    record {
      store = unbind (put_match st m') (get_session st seat.player_session_id);
      calls = detach_player m.match_id seat.player_id token ∷ [];
      events = [];
      result = some (record { match = m'; remaining_players = size m'.seats; outcome = released });
    }

-- The match after the surrender, its seat stamped.
unfoldable pub stamp : MatchRecord → SeatRecord → Match → ℕ → MatchRecord
stamp m seat session now_ms = record m {
  engine_session = some session;
  seats = put eq_index m.seats seat.seat_index (record seat { forfeited_at_ms = some now_ms });
}

unfoldable pub surrender_seat :
    MatchmakerStore → MatchRecord → SeatRecord → Match → Text → ℕ → Option Handled
unfolding stamp handle_all_players_forfeited
surrender_seat st m seat session token now_ms =
    let session' = (submit session (surrender seat.player_id)).0 in
    let m' = stamp m seat session' now_ms in
    let calls = detach_player m.match_id seat.player_id token ∷ [] in
    let remaining = count_alive m'.engine_session in
    if remaining == 0
    then handle_all_players_forfeited (put_match st m') m' session' calls now_ms
    else some (record {
      store = put_match st m';
      calls = calls;
      events = [];
      result = some (record { match = m'; remaining_players = remaining; outcome = surrendered });
    })

abbrev pub by_status :
    MatchStatus
    → Option Match
    → MatchmakerStore
    → MatchRecord
    → SeatRecord
    → Text
    → ℕ
    → Option Handled
by_status filling session st m seat token now_ms = some (release_seat st m seat token)
by_status running (some session) st m seat token now_ms =
    surrender_seat st m seat session token now_ms
by_status _ _ st m seat token now_ms = some (ignored st)

abbrev pub unless_forfeited :
    Option ℕ → MatchmakerStore → MatchRecord → SeatRecord → Text → ℕ → Option Handled
unless_forfeited (some _) st m seat token now_ms = some (ignored st)
unless_forfeited none st m seat token now_ms =
    by_status m.status m.engine_session st m seat token now_ms

abbrev pub with_seat : Option SeatRecord → MatchmakerStore → MatchRecord → Text → ℕ → Option Handled
with_seat none st m token now_ms = some (ignored st)
with_seat (some seat) st m token now_ms =
    unless_forfeited seat.forfeited_at_ms st m seat token now_ms

abbrev pub with_match : Option MatchRecord → MatchmakerStore → Text → ℕ → Option Handled
with_match none st token now_ms = some (ignored st)
with_match (some m) st token now_ms = with_seat (find_seat (values m.seats) token) st m token now_ms

unfoldable pub handle_seat_expired : MatchmakerStore → (match_id token : Text) → ℕ → Option Handled
unfolding release_seat surrender_seat
handle_seat_expired st match_id token now_ms = with_match (get_match st match_id) st token now_ms
