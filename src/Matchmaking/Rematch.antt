-- ===== src/Matchmaking/Rematch.antt =====
-- packages/matchmaking/src/rematch.ts: the offer of a rematch and its votes. A vote set is a list
-- without repetitions.
pub mod Votes
use europa_neo.Prelude.{
  ℕ, ◌+◌, ltb, ◌==◌, if◌then◌else◌, Bool, true, false, not, ◌||◌, Option, none, some, List, [], ◌∷◌,
  ◌++◌, length,
}
use europa_neo.Core.PlayerId.{eq_id}
use europa_neo.Matchmaking.OrderedMap.{values}
use europa_neo.Matchmaking.Types.{Text, SeatRecord, RematchOffer, MatchRecord}

pub data VoterEligibility : Type 0 where
  eligible already_voted not_in_match : VoterEligibility

abbrev pub has : List Text → Text → Bool
has [] id = false
has (x ∷ xs) id = eq_id x id || has xs id

-- `Set.prototype.add`.
abbrev pub add : List Text → Text → List Text
add xs id = if has xs id then xs else xs ++ id ∷ []

abbrev pub session_ids : List SeatRecord → List Text
session_ids [] = []
session_ids (s ∷ ss) = s.player_session_id ∷ session_ids ss

abbrev or_now : Option ℕ → ℕ → ℕ
or_now none now_ms = now_ms
or_now (some t) now_ms = t

unfoldable pub open_rematch_window : MatchRecord → Text → (now_ms window_ms : ℕ) → RematchOffer
open_rematch_window m offer_id now_ms window_ms = record {
  offer_id = offer_id;
  window_expires_at_ms = or_now m.finished_at_ms now_ms + window_ms;
  accepted_by = [];
  declined_by = [];
  all_original_player_ids = session_ids (values m.seats);
  new_match_record = none;
}

unfoldable pub classify_voter_eligibility : RematchOffer → Text → VoterEligibility
classify_voter_eligibility offer voter =
    if has offer.accepted_by voter || has offer.declined_by voter
    then already_voted
    else if not (has offer.all_original_player_ids voter)
    then not_in_match
    else eligible

-- The offer, and whether the vote completes the set.
unfoldable pub cast_accept_vote : RematchOffer → Text → RematchOffer × Bool
cast_accept_vote offer voter =
    let accepted = add offer.accepted_by voter in
    (
      record offer { accepted_by = accepted },
      length accepted == length offer.all_original_player_ids,
    )

unfoldable pub cast_decline_vote : RematchOffer → Text → RematchOffer
cast_decline_vote offer voter = record offer { declined_by = add offer.declined_by voter }

unfoldable pub is_window_closed : RematchOffer → ℕ → Bool
is_window_closed offer now_ms = ltb offer.window_expires_at_ms now_ms
