-- ===== src/Matchmaking/Matchmaker/Leaving.antt =====
-- leaveMatch and the handlers of the networking server's events of
-- packages/matchmaking/src/matchmaker.ts. The listeners of other packages are not called.
pub mod Departures
use europa_neo.Prelude.{
  ℕ, suc, ◌+◌, ℤ, sub_ℕ, ◌==◌, if◌then◌else◌, Bool, true, false, Option, none, some, ◌>>=◌, List,
  [], ◌∷◌, ◌++◌,
}
use europa_neo.Engine.Types.{MatchResult}
use europa_neo.Engine.Run.{Match}
use europa_neo.Matchmaking.OrderedMap.{values, size}
use europa_neo.Matchmaking.Types.{
  Text, MatchStatus, filling, running, finished, collected, decided, SeatRecord, PlayerSession,
  MatchRecord,
}
use europa_neo.Matchmaking.Store.{
  MatchmakerStore, get_match, put_match, delete_match, delete_session, list_matches, list_sessions,
}
use europa_neo.Matchmaking.Results.{build_match_results_record}
use europa_neo.Matchmaking.Lifecycle.{eq_status, transition_running_to_finished}
use europa_neo.Matchmaking.Lobby.{is_public}
use europa_neo.Matchmaking.Forfeit.{
  ServerCall, unregister_match, ForfeitOutcome, surrendered, released, torn_down, SeatExpiredResult,
  Handled, find_seat, handle_seat_expired,
}
use europa_neo.Matchmaking.Matchmaker.{
  Limits, Matchmaker, MatchmakerError, match_not_found, session_invalid, collect_match,
  run_lazy_sweeps,
}
use europa_neo.Matchmaking.Matchmaker.Offers.{with_record}

-- The matchmaker after the policy for an expired seat.
abbrev pub after_policy : Matchmaker → Handled → Matchmaker
after_policy mm h = record mm {
  store = h.store;
  calls = mm.calls ++ h.calls;
  events = mm.events ++ h.events;
}

abbrev pub count_forfeit : ForfeitOutcome → Matchmaker → Matchmaker
count_forfeit released mm = mm
count_forfeit surrendered mm = record mm { total_forfeits = mm.total_forfeits + 1 }
count_forfeit torn_down mm = record mm {
  total_forfeits = mm.total_forfeits + 1;
  total_collected = mm.total_collected + 1;
}

abbrev pub count_result : Option SeatExpiredResult → Matchmaker → Matchmaker
count_result none mm = mm
count_result (some r) mm = count_forfeit r.outcome mm

unfoldable pub on_seat_expired : Matchmaker → (match_id token : Text) → ℕ → Option Matchmaker
on_seat_expired mm match_id token now_ms =
    handle_seat_expired mm.store match_id token now_ms >>= λ h.
    some (count_result h.result (after_policy mm h))

-- A running match with its session.
abbrev pub finish_match :
    Matchmaker → MatchRecord → Option Match → MatchResult → ℕ → Option Matchmaker
finish_match mm m none result at_ms = some mm
finish_match mm m (some session) result at_ms =
    transition_running_to_finished m
      (build_match_results_record m.match_id session.world (decided result) m.seats) at_ms
    >>= λ out. some (record (with_record mm out.0) {
      events = mm.events ++ out.1 ∷ [];
      total_finished = mm.total_finished + 1;
    })

unfoldable pub handle_match_terminal :
    Matchmaker → (match_id : Text) → MatchResult → ℕ → Option Matchmaker
handle_match_terminal mm match_id result at_ms = elim (get_match mm.store match_id) [
  | none ↦ some mm
  | some m ↦
      if eq_status m.status running
      then finish_match mm m m.engine_session result at_ms
      else some mm
]

pub data Departure : Type 0 where
  departed : Departure
  leave_refused : MatchmakerError → Departure

-- The filling match after the seat is released.
abbrev pub close_empty : Matchmaker → MatchRecord → SeatRecord → ℕ → Option Matchmaker
close_empty mm m seat at_ms =
    if size m.seats == 0
    then collect_match (record mm { store = delete_session mm.store seat.player_session_id }) m
        at_ms
    else some (with_record mm (record m { last_activity_at_ms = at_ms }))

-- The policy must have released the seat, else the code throws.
abbrev pub when_released :
    Option SeatExpiredResult → Matchmaker → SeatRecord → ℕ → Option Matchmaker
when_released none mm seat at_ms = none
when_released (some r) mm seat at_ms = elim r.outcome [
  | released ↦ close_empty mm r.match seat at_ms
  | surrendered ↦ none
  | torn_down ↦ none
]

-- The policy must have had an effect, else the code throws. A leave is not counted as a forfeit.
abbrev pub when_forfeited : Option SeatExpiredResult → Matchmaker → Option Matchmaker
when_forfeited none mm = none
when_forfeited (some r) mm = elim r.outcome [
  | torn_down ↦ some (record mm { total_collected = mm.total_collected + 1 })
  | surrendered ↦ some mm
  | released ↦ some mm
]

abbrev pub leave_by :
    Option ℕ
    → MatchStatus
    → Matchmaker
    → SeatRecord
    → (match_id token : Text) → ℕ
    → Option Matchmaker
leave_by (some _) status mm seat match_id token at_ms = some mm
leave_by none filling mm seat match_id token at_ms =
    handle_seat_expired mm.store match_id token at_ms >>= λ h.
    when_released h.result (after_policy mm h) seat at_ms
leave_by none running mm seat match_id token at_ms =
    handle_seat_expired mm.store match_id token at_ms >>= λ h.
    when_forfeited h.result (after_policy mm h)
leave_by none _ mm seat match_id token at_ms = some mm

abbrev pub leave_seat :
    Option SeatRecord
    → Matchmaker
    → MatchRecord
    → (match_id token : Text) → ℕ
    → Option (Matchmaker × Departure)
leave_seat none mm m match_id token at_ms = some (mm, leave_refused session_invalid)
leave_seat (some seat) mm m match_id token at_ms =
    leave_by seat.forfeited_at_ms m.status mm seat match_id token at_ms >>= λ out.
    some (out, departed)

unfoldable pub leave_match :
    Matchmaker → (match_id token : Text) → ℕ → Option (Matchmaker × Departure)
leave_match mm match_id token at_ms = elim (get_match mm.store match_id) [
  | none ↦ some (mm, leave_refused match_not_found)
  | some m ↦ leave_seat (find_seat (values m.seats) token) mm m match_id token at_ms
]
