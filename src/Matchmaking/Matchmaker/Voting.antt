-- ===== src/Matchmaking/Matchmaker/Voting.antt =====
-- The checks of a vote and the decline of a rematch.
use europa_neo.Prelude.{
  ℕ, ◌+◌, ◌≡◌, refl, ap, subst, arith, true, false, not, ◌||◌, Bool-cases, inl, inr, ◌⊎◌, Option,
  none, some, Option-cases, Returns,
}
use europa_neo.Core.PlayerId.{eq_id}
use europa_neo.Engine.Registry.Checks.{eq_id_sound}
use europa_neo.Matchmaking.OrderedMap.{values}
use europa_neo.Matchmaking.Types.{
  Text, MatchStatus, finished, collected, SeatRecord, PlayerSession, RematchOffer, MatchRecord,
}
use europa_neo.Matchmaking.Store.{MatchmakerStore, get_match, put_match, get_session}
use europa_neo.Matchmaking.Store.Laws.{get-put_match_self}
use europa_neo.Matchmaking.Lifecycle.{eq_status, release_match_sessions, transition_to_collected}
use europa_neo.Matchmaking.Lifecycle.Invariant.{eq_status_sound}
use europa_neo.Matchmaking.Rematch.{
  VoterEligibility, eligible, already_voted, not_in_match, classify_voter_eligibility,
  cast_decline_vote, is_window_closed,
}
use europa_neo.Matchmaking.Forfeit.{find_seat}
use europa_neo.Matchmaking.Matchmaker.{Matchmaker, MatchmakerError, collect_match}
use europa_neo.Matchmaking.Matchmaker.Offers.{
  Ballot, Checked, refused, passed, is_null, check_voter, check_seat, check_offer, check_vote, Vote,
  vote_refused, declined, decline_rematch,
}

-- A vote that may be cast: on the open offer of a finished match, for a seat of the match that has not
-- forfeited and whose session is there, by a participant who has not voted.
pub record IsBallot (st : MatchmakerStore) (match_id token offer_id : Text) (now_ms : ℕ)
    (b : Ballot) : Type 0 where
  pub known : get_match st match_id ≡ some b.match
  pub over : b.match.status ≡ finished
  pub offered : b.match.rematch ≡ some b.offer
  pub same_offer : offer_id ≡ b.offer.offer_id
  pub seated : find_seat (values b.match.seats) token ≡ some b.seat
  pub unforfeited : b.seat.forfeited_at_ms ≡ none
  pub present : (s : PlayerSession) × (get_session st b.seat.player_session_id ≡ some s)
  pub may_vote : classify_voter_eligibility b.offer b.seat.player_session_id ≡ eligible
  pub still_open : is_window_closed b.offer now_ms ≡ false

passed_inj : {a b : Ballot} → passed a ≡ passed b → a ≡ b
passed_inj e = cc

check_voter-passes :
    (v : VoterEligibility) (a b : Ballot) (now_ms : ℕ)
    → check_voter v a now_ms ≡ passed b
    → (v ≡ eligible) × (is_window_closed a.offer now_ms ≡ false) × (a ≡ b)
check_voter-passes not_in_match a b now_ms = λ e. absurd (cc)
check_voter-passes already_voted a b now_ms = λ e. absurd (cc)
check_voter-passes eligible a b now_ms = elim (Bool-cases (is_window_closed a.offer now_ms)) [
  | inl shut ↦ rw shut (λ e. absurd (cc))
  | inr still ↦ rw still (λ e. (refl, refl, passed_inj e))
]

not_null {ℓ} : {A : Type ℓ} (o : Option A) → is_null o ≡ false → (a : A) × (o ≡ some a)
not_null none e = absurd (cc)
not_null (some a) e = (a, refl)

null {ℓ} : {A : Type ℓ} (o : Option A) → is_null o ≡ true → o ≡ none
null none e = refl
null (some a) e = absurd (cc)

module _ (st : MatchmakerStore) (match_id token offer_id : Text) (now_ms : ℕ) (b : Ballot) where
  check_seat-passes :
      (o : Option SeatRecord) (m : MatchRecord) (offer : RematchOffer)
      → find_seat (values m.seats) token ≡ o
      → get_match st match_id ≡ some m
      → m.status ≡ finished
      → m.rematch ≡ some offer
      → offer_id ≡ offer.offer_id
      → check_seat o st m offer now_ms ≡ passed b
      → IsBallot st match_id token offer_id now_ms b
  check_seat-passes none m offer seated known over offered same = λ e. absurd (cc)
  check_seat-passes (some seat) m offer seated known over offered same =
      elim (Bool-cases
        (not (is_null seat.forfeited_at_ms) || is_null (get_session st seat.player_session_id))) [
          | inl bad ↦ rw bad (λ e. absurd (cc))
          | inr good ↦ rw good (λ e.
              let (may, still, same_ballot) =
                check_voter-passes (classify_voter_eligibility offer seat.player_session_id)
                  (record { match = m; offer = offer; seat = seat }) b now_ms e in
              subst (IsBallot st match_id token offer_id now_ms) same_ballot (record {
                known = known;
                over = over;
                offered = offered;
                same_offer = same;
                seated = seated;
                unforfeited = null _ (ground arith);
                present = not_null _ (ground arith);
                may_vote = may;
                still_open = still;
              }))
        ]

  check_offer-passes :
      (o : Option RematchOffer) (m : MatchRecord)
      → m.rematch ≡ o
      → get_match st match_id ≡ some m
      → m.status ≡ finished
      → check_offer o st m token offer_id now_ms ≡ passed b
      → IsBallot st match_id token offer_id now_ms b
  check_offer-passes none m offered known over = λ e. absurd (cc)
  check_offer-passes (some offer) m offered known over =
      elim (Bool-cases (eq_id offer_id offer.offer_id)) [
        | inr other ↦ rw other (λ e. absurd (cc))
        | inl same ↦ rw same (λ e.
            check_seat-passes (find_seat (values m.seats) token) m offer refl known over offered
              (eq_id_sound offer_id offer.offer_id same) e)
      ]

  -- A vote that passes the checks may be cast.
  pub check_vote-IsBallot :
      check_vote st match_id token offer_id now_ms ≡ passed b
      → IsBallot st match_id token offer_id now_ms b
  unfolding check_vote
  check_vote-IsBallot = elim (Option-cases (get_match st match_id)) [
    | inl missing ↦ rw (missing, check_vote) (λ e. absurd (cc))
    | inr (m, known) ↦
        rw (known, check_vote)
          (elim (Bool-cases (eq_status m.status finished)) [
            | inr early ↦ rw early (λ e. absurd (cc))
            | inl over ↦ rw over (λ e.
                check_offer-passes m.rematch m refl known (eq_status_sound m.status finished over)
                  e)
          ])
  ]

-- The answer to a decline: it is refused by a check and nothing changes, or it is a vote that may be cast
-- and the match is collected, with one more decline counted.
pub IsDecline : Matchmaker → (match_id token offer_id : Text) → ℕ → ℕ → Matchmaker × Vote → Type 0
IsDecline mm match_id token offer_id check_ms at_ms out =
    ((e : MatchmakerError) × (check_vote mm.store match_id token offer_id check_ms ≡ refused e)
      × (out ≡ (mm, vote_refused e)))
    ⊎ ((b : Ballot) × (left : MatchRecord) × IsBallot mm.store match_id token offer_id check_ms b
        × (get_match out.0.store b.match.match_id ≡ some left)
        × (left.status ≡ collected)
        × (left.rematch ≡ some (cast_decline_vote b.offer b.seat.player_session_id))
        × (out.0.total_rematch_declined ≡ mm.total_rematch_declined + 1)
        × (out.1 ≡ declined))

Checked-cases :
    (c : Checked) → ((e : MatchmakerError) × (c ≡ refused e)) ⊎ ((b : Ballot) × (c ≡ passed b))
Checked-cases (refused e) = inl (e, refl)
Checked-cases (passed b) = inr (b, refl)

-- A decline does not throw, and is answered as stated: refused by a check without any change, or cast as
-- a vote that may be cast, which collects the match.
pub decline_rematch-IsDecline :
    (mm : Matchmaker) (match_id token offer_id : Text) (check_ms at_ms : ℕ)
    → Returns
        (IsDecline mm match_id token offer_id check_ms at_ms)
        (decline_rematch mm match_id token offer_id check_ms at_ms)
unfolding decline_rematch collect_match transition_to_collected IsDecline
decline_rematch-IsDecline mm match_id token offer_id check_ms at_ms =
    elim (Checked-cases (check_vote mm.store match_id token offer_id check_ms)) [
      | inl (e, stop) ↦ rw (stop, decline_rematch) (_, refl, inl (e, refl, refl))
      | inr (b, go) ↦
          let ballot = check_vote-IsBallot mm.store match_id token offer_id check_ms b go in
          let live : eq_status b.match.status collected ≡ false =
            ap (λ (s : MatchStatus). eq_status s collected) ballot.over in
          let m : MatchRecord = record b.match {
            rematch = some (cast_decline_vote b.offer b.seat.player_session_id);
          } in
          rw (go, decline_rematch, live)
            (
              _,
              refl,
              inr (
                b,
                _,
                ballot,
                get-put_match_self (release_match_sessions (put_match mm.store m) m)
                    (record m { status = collected; last_activity_at_ms = at_ms }),
                refl,
                refl,
                refl,
                refl,
              ),
            )
    ]
