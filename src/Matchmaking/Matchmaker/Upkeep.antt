-- ===== src/Matchmaking/Matchmaker/Upkeep.antt =====
-- listPublicMatches, stats and close of packages/matchmaking/src/matchmaker.ts.
pub mod Closing
use europa_neo.Prelude.{
  ℕ, suc, ◌+◌, ℤ, sub_ℕ, ◌==◌, if◌then◌else◌, Bool, true, false, Option, none, some, ◌>>=◌, List,
  [], ◌∷◌, ◌++◌,
}
use europa_neo.Engine.Types.{MatchResult}
use europa_neo.Engine.Run.{Match}
use europa_neo.Matchmaking.OrderedMap.{values, size}
use europa_neo.Matchmaking.Types.{
  Text, MatchStatus, filling, running, finished, collected, decided, SeatRecord, PlayerSession,
  MatchRecord,
}
use europa_neo.Matchmaking.Store.{
  MatchmakerStore, get_match, put_match, delete_match, delete_session, list_matches, list_sessions,
}
use europa_neo.Matchmaking.Results.{build_match_results_record}
use europa_neo.Matchmaking.Lifecycle.{eq_status, transition_running_to_finished}
use europa_neo.Matchmaking.Lobby.{is_public, LobbyEntry, list_public_matches}
use europa_neo.Matchmaking.Forfeit.{
  ServerCall, unregister_match, ForfeitOutcome, surrendered, released, torn_down, SeatExpiredResult,
  Handled, find_seat, handle_seat_expired,
}
use europa_neo.Matchmaking.Matchmaker.{
  Limits, Matchmaker, MatchmakerError, match_not_found, session_invalid, collect_match,
  run_lazy_sweeps,
}
use europa_neo.Matchmaking.Matchmaker.Offers.{with_record}

pub record MatchmakerStats : Type 0 where
  pub active_matches : ℕ
  pub filling_matches : ℕ
  pub running_matches : ℕ
  pub finished_matches : ℕ
  pub collected_matches : ℕ
  pub public_joinable_matches : ℕ
  pub active_player_sessions : ℕ
  pub uptime_ms : ℤ

abbrev count_matches : (MatchRecord → Bool) → List MatchRecord → ℕ
count_matches test [] = 0
count_matches test (m ∷ ms) = let rest = count_matches test ms in if test m then suc rest else rest

abbrev is_in : MatchStatus → MatchRecord → Bool
is_in s m = eq_status m.status s

abbrev is_joinable : MatchRecord → Bool
is_joinable m = if eq_status m.status filling then is_public m.visibility else false

abbrev is_bound : Option Text → Bool
is_bound none = false
is_bound (some _) = true

abbrev count_bound : List PlayerSession → ℕ
count_bound [] = 0
count_bound (s ∷ ss) =
    let rest = count_bound ss in if is_bound s.current_match_id then suc rest else rest

-- The counts of a store; the totals are the fields of the matchmaker.
unfoldable pub count_store : MatchmakerStore → (uptime_ms : ℤ) → MatchmakerStats
count_store st uptime_ms =
    let ms = list_matches st in
    let a = count_matches (is_in filling) ms in
    let b = count_matches (is_in running) ms in
    let c = count_matches (is_in finished) ms in
    record {
      active_matches = a + b + c;
      filling_matches = a;
      running_matches = b;
      finished_matches = c;
      collected_matches = count_matches (is_in collected) ms;
      public_joinable_matches = count_matches is_joinable ms;
      active_player_sessions = count_bound (list_sessions st);
      uptime_ms = uptime_ms;
    }

-- `at_ms` is the time of the sweeps, `end_ms` that of the answer.
unfoldable pub stats :
    Limits
    → (constructed_at_ms at_ms end_ms : ℕ) → Matchmaker
    → Option (Matchmaker × MatchmakerStats)
stats limits constructed_at_ms at_ms end_ms mm = run_lazy_sweeps limits at_ms mm >>= λ swept.
    some (swept, count_store swept.store (sub_ℕ end_ms constructed_at_ms))

-- The loops of close, over snapshots of the store.
unfoldable pub close_matches : List MatchRecord → Matchmaker → Matchmaker
close_matches [] mm = mm
close_matches (m ∷ ms) mm = close_matches ms (record mm {
  store = delete_match mm.store m.match_id;
  calls = mm.calls ++ unregister_match m.match_id ∷ [];
})

unfoldable pub close_sessions : List PlayerSession → MatchmakerStore → MatchmakerStore
close_sessions [] st = st
close_sessions (s ∷ ss) st = close_sessions ss (delete_session st s.player_session_id)

-- The first call of close; the flag that it sets makes later calls do nothing.
unfoldable pub close : Matchmaker → Matchmaker
unfolding close_matches close_sessions
close mm =
    let closed = close_matches (list_matches mm.store) mm in
    record closed { store = close_sessions (list_sessions closed.store) closed.store }

-- The lobby after the sweeps; `end_ms` is the time of the answer.
unfoldable pub list_public :
    Limits → (at_ms end_ms : ℕ) → Matchmaker → Option (Matchmaker × List LobbyEntry)
list_public limits at_ms end_ms mm = run_lazy_sweeps limits at_ms mm >>= λ swept.
    some (swept, list_public_matches (list_matches swept.store) end_ms)
