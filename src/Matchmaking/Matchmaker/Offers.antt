-- ===== src/Matchmaking/Matchmaker/Offers.antt =====
-- requestRematch, acceptRematch and declineRematch of packages/matchmaking/src/matchmaker.ts. New ids,
-- tokens and seeds are arguments, as are the readings of the clock.
use europa_neo.Prelude.{
  ℕ, ◌+◌, if◌then◌else◌, Bool, true, false, not, ◌||◌, Option, none, some, ◌>>=◌, List, [], ◌∷◌,
  ◌++◌,
}
use europa_neo.Core.PlayerId.{eq_id}
use europa_neo.Engine.Registry.{sort_by}
use europa_neo.Matchmaking.OrderedMap.{values}
use europa_neo.Matchmaking.Types.{
  Text, filling, finished, SeatRecord, PlayerSession, RematchOffer, MatchRecord,
}
use europa_neo.Matchmaking.Store.{MatchmakerStore, get_match, put_match, get_session, put_session}
use europa_neo.Matchmaking.Lifecycle.{eq_status, RematchParticipant, create_rematch_match_record}
use europa_neo.Matchmaking.Rematch.{
  VoterEligibility, eligible, already_voted, not_in_match, open_rematch_window,
  classify_voter_eligibility, cast_accept_vote, cast_decline_vote, is_window_closed,
}
use europa_neo.Matchmaking.Forfeit.{find_seat}
use europa_neo.Matchmaking.Results.{by_seat_index}
use europa_neo.Matchmaking.Matchmaker.{
  Limits, Matchmaker, MatchmakerError, match_not_found, session_invalid, player_not_in_match,
  rate_limited, rematch_not_offered, rematch_already_voted, rematch_window_closed, collect_match,
  enforce_capacity,
}

pub data RematchRequest : Type 0 where
  requested : (offer_id : Text) → RematchRequest
  request_refused : MatchmakerError → RematchRequest

-- A match with the changed record in its place.
abbrev pub with_record : Matchmaker → MatchRecord → Matchmaker
with_record mm m = record mm { store = put_match mm.store m }

abbrev repeat_request : RematchOffer → VoterEligibility → ℕ → RematchRequest
repeat_request offer already_voted check_ms = request_refused rematch_already_voted
repeat_request offer _ check_ms =
    if is_window_closed offer check_ms
    then request_refused rematch_window_closed
    else requested offer.offer_id

-- `open_ms` is the time of the opening, `check_ms` that of the check of the window.
abbrev request_on :
    Option RematchOffer
    → Limits
    → Matchmaker
    → MatchRecord
    → SeatRecord
    → (offer_id : Text) → (open_ms check_ms : ℕ) → Matchmaker × RematchRequest
request_on (some offer) limits mm m seat offer_id open_ms check_ms =
    (mm, repeat_request offer (classify_voter_eligibility offer seat.player_session_id) check_ms)
request_on none limits mm m seat offer_id open_ms check_ms =
    let offer = open_rematch_window m offer_id open_ms limits.rematch_window_ms in
    if is_window_closed offer check_ms
    then (mm, request_refused rematch_window_closed)
    else (with_record mm (record m { rematch = some offer }), requested offer_id)

unfoldable pub request_rematch :
    Limits
    → Matchmaker
    → (match_id token offer_id : Text) → (open_ms check_ms : ℕ) → Matchmaker × RematchRequest
request_rematch limits mm match_id token offer_id open_ms check_ms =
    elim (get_match mm.store match_id) [
      | none ↦ (mm, request_refused match_not_found)
      | some m ↦
          if not (eq_status m.status finished)
          then (mm, request_refused rematch_not_offered)
          else elim (find_seat (values m.seats) token) [
            | none ↦ (mm, request_refused session_invalid)
            | some seat ↦ request_on m.rematch limits mm m seat offer_id open_ms check_ms
          ]
    ]

-- What a vote that passes its checks is cast on.
pub record Ballot : Type 0 where
  pub match : MatchRecord
  pub offer : RematchOffer
  pub seat : SeatRecord

pub data Checked : Type 0 where
  refused : MatchmakerError → Checked
  passed : Ballot → Checked

abbrev pub is_null {ℓ} : {A : Type ℓ} → Option A → Bool
is_null none = true
is_null (some _) = false

abbrev pub check_voter : VoterEligibility → Ballot → ℕ → Checked
check_voter not_in_match b now_ms = refused player_not_in_match
check_voter already_voted b now_ms = refused rematch_already_voted
check_voter eligible b now_ms =
    if is_window_closed b.offer now_ms then refused rematch_window_closed else passed b

abbrev pub check_seat :
    Option SeatRecord → MatchmakerStore → MatchRecord → RematchOffer → ℕ → Checked
check_seat none st m offer now_ms = refused session_invalid
check_seat (some seat) st m offer now_ms =
    if not (is_null seat.forfeited_at_ms) || is_null (get_session st seat.player_session_id)
    then refused session_invalid
    else check_voter (classify_voter_eligibility offer seat.player_session_id)
        (record { match = m; offer = offer; seat = seat }) now_ms

abbrev pub check_offer :
    Option RematchOffer → MatchmakerStore → MatchRecord → (token offer_id : Text) → ℕ → Checked
check_offer none st m token offer_id now_ms = refused rematch_not_offered
check_offer (some offer) st m token offer_id now_ms =
    if not (eq_id offer_id offer.offer_id)
    then refused rematch_not_offered
    else check_seat (find_seat (values m.seats) token) st m offer now_ms

-- The checks that acceptRematch and declineRematch share, in their order.
unfoldable pub check_vote : MatchmakerStore → (match_id token offer_id : Text) → ℕ → Checked
check_vote st match_id token offer_id now_ms = elim (get_match st match_id) [
  | none ↦ refused match_not_found
  | some m ↦
      if not (eq_status m.status finished)
      then refused rematch_not_offered
      else check_offer m.rematch st m token offer_id now_ms
]

pub data Vote : Type 0 where
  vote_refused : MatchmakerError → Vote
  accepted declined : Vote
  all_accepted : (new_match_id : Text) → Vote

-- The sessions of the participants, in the order of their seats; a missing one throws.
unfoldable pub participants_of :
    MatchmakerStore → (ℕ → Text) → List SeatRecord → Option (List RematchParticipant)
participants_of st tokens [] = some []
participants_of st tokens (s ∷ ss) = do
  session ← get_session st s.player_session_id
  rest ← participants_of st tokens ss
  some (record { session = session; seat_index = s.seat_index; token = tokens s.seat_index } ∷ rest)

abbrev put_sessions : List PlayerSession → MatchmakerStore → MatchmakerStore
put_sessions [] st = st
put_sessions (s ∷ ss) st = put_sessions ss (put_session st s)

-- What the caller supplies for the new match: its id, its seed and the token of each seat.
pub record Fresh : Type 0 where
  pub match_id : Text
  pub seed : ℕ
  pub tokens : ℕ → Text

-- The new match is made and stored, and the original one collected.
unfoldable pub resolve_rematch :
    Matchmaker → MatchRecord → RematchOffer → Fresh → ℕ → Option (Matchmaker × Vote)
unfolding participants_of
resolve_rematch mm m offer fresh at_ms = do
  participants ← participants_of mm.store fresh.tokens (sort_by by_seat_index (values m.seats))
  let made = create_rematch_match_record m participants at_ms fresh.match_id fresh.seed
  let m' = record m { rematch = some (record offer { new_match_record = some fresh.match_id }) }
  let st = put_match (put_sessions made.sessions mm.store) made.match
  out ←
      collect_match
        (record mm {
          store = put_match st m';
          events =
              mm.events
              ++ record { match_id = fresh.match_id; from = none; to = filling; at_ms = at_ms }
                ∷ [];
          total_created = mm.total_created + 1;
        })
        m' at_ms
  some (out, all_accepted fresh.match_id)

-- The record of the ballot's match after the sweeps: the code holds on to the object.
abbrev pub current : Matchmaker → MatchRecord → MatchRecord
current mm m = elim (get_match mm.store m.match_id) [ none ↦ m | some m' ↦ m' ]

unfoldable pub cast_accept : Matchmaker → Ballot → Fresh → ℕ → Option (Matchmaker × Vote)
unfolding resolve_rematch
cast_accept mm b fresh at_ms =
    let vote = cast_accept_vote b.offer b.seat.player_session_id in
    let m = record (current mm b.match) { rematch = some vote.0 } in
    let voted = record (with_record mm m) {
      total_rematch_accepted = mm.total_rematch_accepted + 1;
    } in
    if vote.1 then resolve_rematch voted m vote.0 fresh at_ms else some (voted, accepted)

unfoldable pub accept_rematch :
    Limits → Matchmaker → (match_id token offer_id : Text) → Fresh → ℕ → Option (Matchmaker × Vote)
unfolding cast_accept
accept_rematch limits mm match_id token offer_id fresh at_ms =
    elim (check_vote mm.store match_id token offer_id at_ms) [
      | refused e ↦ some (mm, vote_refused e)
      | passed b ↦ enforce_capacity limits at_ms mm >>= λ allowed.
          if allowed.1
          then cast_accept allowed.0 b fresh at_ms
          else some (allowed.0, vote_refused rate_limited)
    ]

-- `check_ms` is the time of the check of the window, `at_ms` that of the collection.
unfoldable pub decline_rematch :
    Matchmaker
    → (match_id token offer_id : Text) → (check_ms at_ms : ℕ) → Option (Matchmaker × Vote)
decline_rematch mm match_id token offer_id check_ms at_ms =
    elim (check_vote mm.store match_id token offer_id check_ms) [
      | refused e ↦ some (mm, vote_refused e)
      | passed b ↦
          (let m = record b.match {
            rematch = some (cast_decline_vote b.offer b.seat.player_session_id);
          } in
            let voted = record (with_record mm m) {
              total_rematch_declined = mm.total_rematch_declined + 1;
            } in
            collect_match voted m at_ms >>= λ out. some (out, declined))
    ]
