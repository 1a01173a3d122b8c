-- ===== src/Matchmaking/Matchmaker.antt =====
-- packages/matchmaking/src/matchmaker.ts: the matches of a server, their expiry and their rematches. The
-- clock is read once for each sweep. Calls of the networking server and events are kept in the order
-- in which they are made; a throw is `none`.
pub mod Sweeps
pub mod Expiry
pub mod Offers
pub mod Starts
pub mod Seats
pub mod Rollback
pub mod Thrown
pub mod Voting
pub mod Leaving
pub mod Upkeep
pub mod Requests
use europa_neo.Prelude.{
  ℕ, suc, ◌+◌, ltb, leb, ◌==◌, if◌then◌else◌, Bool, true, false, not, ◌&&◌, Option, none, some,
  ◌>>=◌, List, [], ◌∷◌, ◌++◌,
}
use europa_neo.Core.PlayerId.{eq_id}
use europa_neo.Matchmaking.OrderedMap.{values, size}
use europa_neo.Matchmaking.Types.{
  Text, MatchStatus, filling, running, finished, collected, SeatRecord, PlayerSession, RematchOffer,
  MatchRecord, MatchStatusChanged,
}
use europa_neo.Matchmaking.Store.{
  MatchmakerStore, get_match, put_match, list_matches, get_session, delete_session,
}
use europa_neo.Matchmaking.Lifecycle.{
  eq_status, Reseated, RematchParticipant, release_match_sessions, transition_to_collected,
  create_rematch_match_record,
}
use europa_neo.Matchmaking.Rematch.{
  VoterEligibility, eligible, already_voted, not_in_match, open_rematch_window,
  classify_voter_eligibility, cast_accept_vote, cast_decline_vote, is_window_closed,
}
use europa_neo.Matchmaking.Forfeit.{ServerCall, unregister_match, find_seat}

pub record Limits : Type 0 where
  pub max_concurrent_matches : ℕ
  pub empty_match_ttl_ms : ℕ
  pub results_ttl_ms : ℕ
  pub rematch_window_ms : ℕ

pub record Matchmaker : Type 0 where
  pub store : MatchmakerStore
  pub calls : List ServerCall
  pub events : List MatchStatusChanged
  pub total_created : ℕ
  pub total_finished : ℕ
  pub total_collected : ℕ
  pub total_forfeits : ℕ
  pub total_rematch_accepted : ℕ
  pub total_rematch_declined : ℕ

pub data MatchmakerError : Type 0 where
  match_not_found session_invalid player_not_in_match rate_limited : MatchmakerError
  rematch_not_offered rematch_already_voted rematch_window_closed : MatchmakerError

unfoldable pub collect_match : Matchmaker → MatchRecord → ℕ → Option Matchmaker
collect_match mm m at_ms = transition_to_collected m at_ms none >>= λ out. some (record mm {
  store = put_match (release_match_sessions mm.store m) out.0;
  calls = mm.calls ++ unregister_match m.match_id ∷ [];
  events = mm.events ++ out.1 ∷ [];
  total_collected = mm.total_collected + 1;
})

-- The loop of the three sweeps, over a snapshot of the matches.
unfoldable pub sweep : (MatchRecord → Bool) → ℕ → List MatchRecord → Matchmaker → Option Matchmaker
unfolding collect_match
sweep lapsed at_ms [] mm = some mm
sweep lapsed at_ms (m ∷ ms) mm =
    (if lapsed m then collect_match mm m at_ms else some mm) >>= sweep lapsed at_ms ms

abbrev pub closed_offer : Option RematchOffer → ℕ → Bool
closed_offer none at_ms = false
closed_offer (some offer) at_ms = is_window_closed offer at_ms

abbrev pub open_offer : Option RematchOffer → ℕ → Bool
open_offer none at_ms = false
open_offer (some offer) at_ms = not (is_window_closed offer at_ms)

-- `atMs - since >= ttl`.
abbrev pub idle_for : ℕ → Option ℕ → ℕ → Bool
idle_for ttl none at_ms = false
idle_for ttl (some since) at_ms = not (ltb at_ms (since + ttl))

abbrev pub rematch_lapsed : ℕ → MatchRecord → Bool
rematch_lapsed at_ms m = eq_status m.status finished && closed_offer m.rematch at_ms

abbrev pub results_lapsed : Limits → ℕ → MatchRecord → Bool
results_lapsed limits at_ms m =
    eq_status m.status finished
    && not (open_offer m.rematch at_ms)
    && idle_for limits.results_ttl_ms m.finished_at_ms at_ms

abbrev pub empty_lapsed : Limits → ℕ → MatchRecord → Bool
empty_lapsed limits at_ms m =
    eq_status m.status filling
    && idle_for limits.empty_match_ttl_ms (some m.last_activity_at_ms) at_ms

unfoldable pub sweep_expired_rematches : ℕ → Matchmaker → Option Matchmaker
sweep_expired_rematches at_ms mm = sweep (rematch_lapsed at_ms) at_ms (list_matches mm.store) mm

unfoldable pub sweep_finished_results_ttl : Limits → ℕ → Matchmaker → Option Matchmaker
sweep_finished_results_ttl limits at_ms mm =
    sweep (results_lapsed limits at_ms) at_ms (list_matches mm.store) mm

unfoldable pub sweep_stale_empty_matches : Limits → ℕ → Matchmaker → Option Matchmaker
sweep_stale_empty_matches limits at_ms mm =
    sweep (empty_lapsed limits at_ms) at_ms (list_matches mm.store) mm

unfoldable pub run_lazy_sweeps : Limits → ℕ → Matchmaker → Option Matchmaker
run_lazy_sweeps limits at_ms mm =
    sweep_expired_rematches at_ms mm
    >>= sweep_finished_results_ttl limits at_ms
    >>= sweep_stale_empty_matches limits at_ms

abbrev pub count_active : List MatchRecord → ℕ
count_active [] = 0
count_active (m ∷ ms) =
    let rest = count_active ms in if eq_status m.status collected then rest else suc rest

-- Whether a match more is allowed, after the sweeps.
unfoldable pub enforce_capacity : Limits → ℕ → Matchmaker → Option (Matchmaker × Bool)
enforce_capacity limits at_ms mm = run_lazy_sweeps limits at_ms mm >>= λ swept.
    some (swept, ltb (count_active (list_matches swept.store)) limits.max_concurrent_matches)
