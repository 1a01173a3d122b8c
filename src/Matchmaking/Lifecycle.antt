-- ===== src/Matchmaking/Lifecycle.antt =====
-- packages/matchmaking/src/matchLifecycle.ts: the records of matches and seats, and the transitions.
-- Ids, tokens, seeds and times are arguments; a transition that throws is `none`, and the event that it
-- emits is part of what it returns.
pub mod Invariant
pub mod History
pub mod Rename
use europa_neo.Prelude.{
  ℕ, suc, ◌+◌, Bool, true, false, not, ◌&&◌, ◌==◌, if◌then◌else◌, Option, none, some, List, [], ◌∷◌,
  ◌++◌,
}
use europa_neo.Core.PlayerId.{eq_id}
use europa_neo.Engine.Run.{Match}
use europa_neo.Matchmaking.OrderedMap.{OrderedMap, put, values}
use europa_neo.Matchmaking.Types.{
  Text, Visibility, MatchStatus, filling, running, finished, collected, MatchSettings,
  MatchResultsRecord, SeatRecord, PlayerSession, MatchRecord, MatchStatusChanged,
  create_match_record, create_seat_record,
}
use europa_neo.Matchmaking.Store.{MatchmakerStore, get_session, delete_session}

abbrev pub eq_index : ℕ → ℕ → Bool
eq_index a b = a == b

-- A record with a seat more, the seat, and the session that is bound to it.
pub record Seated : Type 0 where
  pub match : MatchRecord
  pub seat : SeatRecord
  pub session : PlayerSession

abbrev pub bind_session : PlayerSession → Text → SeatRecord → PlayerSession
bind_session s match_id seat = record s {
  current_match_id = some match_id;
  current_seat_index = some seat.seat_index;
  current_session_token = some seat.session_token;
}

unfoldable pub create_match_record_with_creator :
    MatchSettings → Visibility → PlayerSession → ℕ → (match_id token : Text) → Seated
create_match_record_with_creator settings visibility creator now_ms match_id token =
    let m = create_match_record match_id visibility settings now_ms in
    let seat = create_seat_record creator 0 token now_ms in
    record {
      match = record m { seats = put eq_index m.seats 0 seat };
      seat = seat;
      session = bind_session creator match_id seat;
    }

unfoldable pub add_seat_to_filling_match :
    MatchRecord → PlayerSession → (seat_index now_ms : ℕ) → (token : Text) → Seated
add_seat_to_filling_match m joiner seat_index now_ms token =
    let seat = create_seat_record joiner seat_index token now_ms in
    record {
      match = record m {
        seats = put eq_index m.seats seat_index seat;
        last_activity_at_ms = now_ms;
      };
      seat = seat;
      session = bind_session joiner m.match_id seat;
    }

-- `===` on states.
abbrev pub eq_status : MatchStatus → MatchStatus → Bool
eq_status filling filling = true
eq_status running running = true
eq_status finished finished = true
eq_status collected collected = true
eq_status _ _ = false

abbrev pub changed : MatchRecord → MatchStatus → ℕ → MatchStatusChanged
changed m to at_ms = record { match_id = m.match_id; from = some m.status; to = to; at_ms = at_ms }

unfoldable pub transition_filling_to_running :
    MatchRecord → Match → ℕ → Option (MatchRecord × MatchStatusChanged)
transition_filling_to_running m session at_ms =
    if not (eq_status m.status filling)
    then none
    else some (
      record m {
        engine_session = some session;
        started_at_ms = some at_ms;
        status = running;
        last_activity_at_ms = at_ms;
      },
      changed m running at_ms,
    )

unfoldable pub transition_running_to_finished :
    MatchRecord → MatchResultsRecord → ℕ → Option (MatchRecord × MatchStatusChanged)
transition_running_to_finished m results at_ms =
    if not (eq_status m.status running)
    then none
    else some (
      record m {
        results = some results;
        finished_at_ms = some at_ms;
        rematch = none;
        status = finished;
        last_activity_at_ms = at_ms;
      },
      changed m finished at_ms,
    )

abbrev pub given_or_kept {ℓ} : {A : Type ℓ} → Option A → Option A → Option A
given_or_kept (some a) kept = some a
given_or_kept none kept = kept

unfoldable pub transition_to_collected :
    MatchRecord → ℕ → Option MatchResultsRecord → Option (MatchRecord × MatchStatusChanged)
transition_to_collected m at_ms results =
    if eq_status m.status collected
    then none
    else some (
      record m {
        results = given_or_kept results m.results;
        status = collected;
        last_activity_at_ms = at_ms;
      },
      changed m collected at_ms,
    )

-- A participant with the seat it had, and the token of its new seat.
pub record RematchParticipant : Type 0 where
  pub session : PlayerSession
  pub seat_index : ℕ
  pub token : Text

-- The loop over the participants: the seats that are filled and the sessions that are bound.
pub record Reseated : Type 0 where
  pub match : MatchRecord
  pub seats : List SeatRecord
  pub sessions : List PlayerSession

unfoldable pub seat_participants : ℕ → List RematchParticipant → Reseated → Reseated
seat_participants now_ms [] r = r
seat_participants now_ms (p ∷ ps) r =
    let seat = create_seat_record p.session p.seat_index p.token now_ms in
    seat_participants now_ms ps (record {
      match = record r.match { seats = put eq_index r.match.seats p.seat_index seat };
      seats = r.seats ++ seat ∷ [];
      sessions = r.sessions ++ bind_session p.session r.match.match_id seat ∷ [];
    })

unfoldable pub create_rematch_match_record :
    MatchRecord → List RematchParticipant → ℕ → (match_id : Text) → (seed : ℕ) → Reseated
create_rematch_match_record original participants now_ms match_id seed =
    let m = create_match_record match_id original.visibility original.settings now_ms in
    seat_participants now_ms participants
      (record { match = record m { initial_seed = some seed }; seats = []; sessions = [] })

-- `===` on strings that may be null.
abbrev pub eq_optional : Option Text → Option Text → Bool
eq_optional none none = true
eq_optional (some a) (some b) = eq_id a b
eq_optional _ _ = false

-- The test of the two loops of the rename.
abbrev pub needs_rename : Text → Text → Option Text → Option Text → Bool
needs_rename guest handle owner current =
    eq_optional owner (some guest) && not (eq_optional current (some handle))

module _ (guest handle : Text) where
  unfoldable pub rename_sessions : OrderedMap Text PlayerSession → OrderedMap Text PlayerSession × ℕ
  rename_sessions [] = ([], 0)
  rename_sessions (e ∷ m) =
      let rest = rename_sessions m in
      if needs_rename guest handle e.1.guest_player_id e.1.accepted_handle
      then ((e.0, record e.1 { accepted_handle = some handle }) ∷ rest.0, suc rest.1)
      else (e ∷ rest.0, rest.1)

  unfoldable pub rename_seats : OrderedMap ℕ SeatRecord → OrderedMap ℕ SeatRecord × ℕ
  rename_seats [] = ([], 0)
  rename_seats (e ∷ m) =
      let rest = rename_seats m in
      if needs_rename guest handle e.1.guest_player_id e.1.handle
      then ((e.0, record e.1 { handle = some handle }) ∷ rest.0, suc rest.1)
      else (e ∷ rest.0, rest.1)

  unfoldable pub rename_matches : OrderedMap Text MatchRecord → OrderedMap Text MatchRecord × ℕ
  unfolding rename_seats
  rename_matches [] = ([], 0)
  rename_matches (e ∷ m) =
      let rest = rename_matches m in
      let seats = rename_seats e.1.seats in
      if eq_status e.1.status collected
      then (e ∷ rest.0, rest.1)
      else ((e.0, record e.1 { seats = seats.0 }) ∷ rest.0, seats.1 + rest.1)

  -- How many sessions and how many seats were renamed.
  unfoldable pub propagate_handle_rename : MatchmakerStore → MatchmakerStore × (ℕ × ℕ)
  unfolding rename_sessions rename_matches
  propagate_handle_rename st =
      let sessions = rename_sessions st.sessions in
      let matches = rename_matches st.matches in
      (record { matches = matches.0; sessions = sessions.0 }, (sessions.1, matches.1))

-- A session that is bound to another match stays.
abbrev pub release_session :
    Text → MatchmakerStore → SeatRecord → Option PlayerSession → MatchmakerStore
release_session match_id st seat none = st
release_session match_id st seat (some s) =
    if eq_optional s.current_match_id (some match_id)
    then delete_session st seat.player_session_id
    else st

unfoldable pub release_seats : Text → List SeatRecord → MatchmakerStore → MatchmakerStore
release_seats match_id [] st = st
release_seats match_id (seat ∷ seats) st =
    release_seats match_id seats
      (release_session match_id st seat (get_session st seat.player_session_id))

unfoldable pub release_match_sessions : MatchmakerStore → MatchRecord → MatchmakerStore
unfolding release_seats
release_match_sessions st m = release_seats m.match_id (values m.seats) st
