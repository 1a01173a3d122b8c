-- ===== src/Matchmaking/Matchmaker/Seats.antt =====
-- createMatch and joinMatch of packages/matchmaking/src/matchmaker.ts, for requests that pass their
-- validation. New ids, tokens and seeds are arguments, as are the readings of the clock; the board
-- generator of packages/terrain, the networking server and the listeners, which may throw, are parameters.
use europa_neo.Prelude.{
  ℕ, zero, suc, ◌+◌, leb, if◌then◌else◌, Bool, true, false, not, Option, none, some, ◌>>=◌, [], ◌∷◌,
  ◌++◌,
}
use europa_neo.Core.Types.{Board}
use europa_neo.Core.PlayerId.{PlayerId}
use europa_neo.Matchmaking.OrderedMap.{get, delete, values, size}
use europa_neo.Matchmaking.Types.{
  Text, Visibility, MatchStatus, filling, finished, collected, MatchSettings, SeatRecord,
  PlayerSession, MatchRecord, MatchStatusChanged,
}
use europa_neo.Matchmaking.Store.{get_match, put_match, put_session, delete_session}
use europa_neo.Matchmaking.Lifecycle.{
  eq_index, eq_status, Seated, create_match_record_with_creator, add_seat_to_filling_match,
}
use europa_neo.Matchmaking.Forfeit.{find_seat}
use europa_neo.Matchmaking.Matchmaker.{
  Limits, Matchmaker, MatchmakerError, match_not_found, rate_limited, enforce_capacity,
}
use europa_neo.Matchmaking.Matchmaker.Offers.{with_record}
use europa_neo.Matchmaking.Matchmaker.Starts.{Server, auto_start}

pub data Admission : Type 0 where
  admitted : SeatRecord → Admission
  denied : MatchmakerError → Admission
  match_full match_not_joinable session_expired internal_error : Admission

unfoldable pub create_player_session :
    (session_id display_name : Text) → PlayerId → (guest handle : Option Text) → ℕ → PlayerSession
create_player_session session_id display_name player_id guest handle now_ms = record {
  player_session_id = session_id;
  player_id = player_id;
  display_name = display_name;
  guest_player_id = guest;
  accepted_handle = handle;
  current_match_id = none;
  current_seat_index = none;
  current_session_token = none;
  created_at_ms = now_ms;
  last_seen_at_ms = now_ms;
}

unfoldable pub create_match :
    Limits
    → Matchmaker
    → Visibility
    → MatchSettings
    → PlayerSession
    → (match_id token : Text) → ℕ
    → Option (Matchmaker × Admission)
create_match limits mm visibility settings creator match_id token at_ms =
    enforce_capacity limits at_ms mm >>= λ allowed.
    let made = create_match_record_with_creator settings visibility creator at_ms match_id token in
    if not allowed.1
    then some (allowed.0, denied rate_limited)
    else some (
      record allowed.0 {
        store = put_match (put_session allowed.0.store made.session) made.match;
        total_created = allowed.0.total_created + 1;
        events =
            allowed.0.events
            ++ record { match_id = match_id; from = none; to = filling; at_ms = at_ms } ∷ [];
      },
      admitted made.seat,
    )

abbrev pub is_taken : Option SeatRecord → Bool
is_taken none = false
is_taken (some _) = true

-- The loop for the first free seat: `tries` seats are left, from `index` on.
unfoldable pub free_seat : MatchRecord → (tries index : ℕ) → Option ℕ
free_seat m zero index = none
free_seat m (suc tries) index =
    let rest = free_seat m tries (index + 1) in
    if is_taken (get eq_index m.seats index) then rest else some index

module _ (generate_board : MatchSettings → ℕ → Option Board) (server : Server)
    (emit : MatchStatusChanged → Option (Unit {0})) where
  -- The match as it was before the joiner, with its seed and the time.
  abbrev pub rolled_back : MatchRecord → Seated → ℕ → MatchRecord
  rolled_back m made later_ms = record m {
    seats = delete eq_index m.seats made.seat.seat_index;
    last_activity_at_ms = later_ms;
  }

  -- The joiner's seat and session are given back.
  abbrev pub given_back : MatchRecord → Matchmaker → Seated → ℕ → Matchmaker
  given_back m mm made later_ms = record mm {
    store =
        delete_session (put_match mm.store (rolled_back m made later_ms))
          made.session.player_session_id;
  }

  -- A start that fails gives the seat and the session back; a listener that throws at its event is the
  -- last that can fail, when the match is started already.
  abbrev pub started_or_back :
      MatchRecord
      → Option (MatchRecord × MatchStatusChanged)
      → Matchmaker
      → Seated
      → ℕ
      → Matchmaker × Admission
  started_or_back seeded (some out) mm made later_ms =
      let told = record mm { events = mm.events ++ out.1 ∷ [] } in
      elim (emit out.1) [
        | some _ ↦ (with_record told out.0, admitted made.seat)
        | none ↦ (given_back out.0 told made later_ms, internal_error)
      ]
  started_or_back seeded none mm made later_ms =
      (given_back seeded mm made later_ms, internal_error)

  -- A joiner with a free seat of a filling match.
  unfoldable pub take_seat :
      Matchmaker
      → MatchRecord
      → PlayerSession
      → (seat_index : ℕ) → (token : Text) → (fresh_seed at_ms later_ms : ℕ) → Matchmaker × Admission
  unfolding auto_start
  take_seat mm m joiner seat_index token fresh_seed at_ms later_ms =
      let made = add_seat_to_filling_match m joiner seat_index at_ms token in
      let seated = record mm { store = put_match (put_session mm.store made.session) made.match } in
      if leb m.settings.player_count (size made.match.seats)
      then started_or_back (auto_start generate_board server made.match fresh_seed later_ms).0
          (auto_start generate_board server made.match fresh_seed later_ms).1 seated made later_ms
      else (seated, admitted made.seat)

  abbrev pub join_on :
      Option ℕ
      → Matchmaker
      → MatchRecord
      → PlayerSession
      → (token : Text) → (fresh_seed at_ms later_ms : ℕ) → Matchmaker × Admission
  join_on none mm m joiner token fresh_seed at_ms later_ms = (mm, match_full)
  join_on (some index) mm m joiner token fresh_seed at_ms later_ms =
      if not (eq_status m.status filling)
      then (mm, match_not_joinable)
      else take_seat mm m joiner index token fresh_seed at_ms later_ms

  -- The request of a new joiner.
  unfoldable pub join_match :
      Matchmaker
      → (match_id : Text) → PlayerSession
      → (token : Text) → (fresh_seed at_ms later_ms : ℕ) → Matchmaker × Admission
  unfolding free_seat take_seat
  join_match mm match_id joiner token fresh_seed at_ms later_ms =
      elim (get_match mm.store match_id) [
        | none ↦ (mm, denied match_not_found)
        | some m ↦
            join_on (free_seat m m.settings.player_count 0) mm m joiner token fresh_seed at_ms
              later_ms
      ]

abbrev is_over : MatchStatus → Bool
is_over finished = true
is_over collected = true
is_over _ = false

abbrev has_forfeited : Option ℕ → Bool
has_forfeited none = false
has_forfeited (some _) = true

-- The request of a joiner who holds a token.
unfoldable pub rejoin_match : Matchmaker → (match_id token : Text) → Admission
rejoin_match mm match_id token = elim (get_match mm.store match_id) [
  | none ↦ denied match_not_found
  | some m ↦ elim (find_seat (values m.seats) token) [
    | none ↦ denied match_not_found
    | some seat ↦
        if has_forfeited seat.forfeited_at_ms
        then session_expired
        else if is_over m.status
        then session_expired
        else admitted seat
  ]
]
