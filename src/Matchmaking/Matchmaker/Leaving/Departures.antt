-- ===== src/Matchmaking/Matchmaker/Leaving/Departures.antt =====
-- What a player who leaves a match finds.
use europa_neo.Prelude.{
  ℕ, ◌≤◌, ◌≡◌, refl, ◌∙◌, ap, subst, arith, ◌⊎◌, inl, inr, false, ◌==◌, if◌then◌else◌, Option, none,
  some, ◌>>=◌, ◌++◌, Returns, Returns-if, Returns-bind, Option-cases,
}
use europa_neo.Engine.Types.{surrender}
use europa_neo.Engine.Run.{Match}
use europa_neo.Matchmaking.OrderedMap.{values, delete, size}
use europa_neo.Matchmaking.OrderedMap.Laws.{IsMap}
use europa_neo.Matchmaking.Types.{
  Text, MatchStatus, filling, running, finished, collected, SeatRecord, MatchRecord,
}
use europa_neo.Matchmaking.Store.{get_match, delete_session}
use europa_neo.Matchmaking.Store.Laws.{get-put_match_self}
use europa_neo.Matchmaking.EngineSession.{submit}
use europa_neo.Matchmaking.Lifecycle.{
  eq_index, eq_status, release_match_sessions, transition_to_collected,
}
use europa_neo.Matchmaking.Lifecycle.Invariant.{progress, IsSome, IsRecord, HasFields}
use europa_neo.Matchmaking.Forfeit.{
  Handled, find_seat, release_seat, handle_seat_expired, by_status, unless_forfeited, with_seat,
  with_match,
}
use europa_neo.Matchmaking.Forfeit.Laws.{AreSeats, IsForfeited, surrender_seat-IsForfeited}
use europa_neo.Matchmaking.Matchmaker.{Matchmaker, match_not_found, session_invalid, collect_match}
use europa_neo.Matchmaking.Matchmaker.Leaving.{
  after_policy, close_empty, when_released, when_forfeited, leave_by, Departure, departed,
  leave_refused, leave_match,
}

-- What the store keeps at an id.
pub record IsKept (m : MatchRecord) : Type 0 where
  pub fields : IsRecord m
  pub one_seat : IsMap m.seats
  pub at_index : AreSeats m.seats

-- What becomes of the matchmaker when the holder of a seat leaves: nothing, if the seat was forfeited or
-- the match is over; the seat of a filling match is given up, and the match collected with its last seat;
-- the seat of a running match is forfeited, and not counted as a lost connection.
pub data HasLeft (mm : Matchmaker) (m : MatchRecord) (seat : SeatRecord) (token : Text) (at_ms : ℕ)
    (after : Matchmaker) : Type 0 where
  had_left :
      IsSome seat.forfeited_at_ms ⊎ (2 ≤ progress m.status)
      → after ≡ mm
      → HasLeft mm m seat token at_ms after
  gave_up :
      (left : MatchRecord)
      → m.status ≡ filling
      → get_match after.store m.match_id ≡ some left
      → left.seats ≡ delete eq_index m.seats seat.seat_index
      → left.status ≡ (if size left.seats == 0 then collected else filling)
      → HasLeft mm m seat token at_ms after
  forfeited :
      (session : Match) (h : Handled)
      → m.status ≡ running
      → m.engine_session ≡ some session
      → IsForfeited m seat (submit session (surrender seat.player_id)).0 token at_ms h
      → after.store ≡ h.store
      → after.calls ≡ mm.calls ++ h.calls
      → after.total_forfeits ≡ mm.total_forfeits
      → HasLeft mm m seat token at_ms after

module _ (mm : Matchmaker) (m : MatchRecord) (seat : SeatRecord) (match_id token : Text) (at_ms : ℕ)
    (known : get_match mm.store match_id ≡ some m)
    (found : find_seat (values m.seats) token ≡ some seat) (kept : IsKept m) where
  abbrev Left : Matchmaker → Type 0
  Left = HasLeft mm m seat token at_ms

  handled :
      seat.forfeited_at_ms ≡ none
      → handle_seat_expired mm.store match_id token at_ms
        ≡ by_status m.status m.engine_session mm.store m seat token at_ms
  unfolding handle_seat_expired
  handled live =
      ap (λ (o : Option MatchRecord). with_match o mm.store token at_ms) known
      ∙ ap (λ (o : Option SeatRecord). with_seat o mm.store m token at_ms) found
      ∙ ap (λ (o : Option ℕ). unless_forfeited o mm.store m seat token at_ms) live

  abbrev emptied : MatchRecord
  emptied = record m { seats = delete eq_index m.seats seat.seat_index }

  close_empty-Left :
      (now : Matchmaker) → m.status ≡ filling → Returns Left (close_empty now emptied seat at_ms)
  unfolding collect_match transition_to_collected
  close_empty-Left now fills =
      Returns-if Left (size emptied.seats == 0)
        (λ nobody.
          let live : eq_status m.status collected ≡ false =
            ap (λ (s : MatchStatus). eq_status s collected) fills in
          rw live (
            _,
            refl,
            gave_up _ fills
                (get-put_match_self
                  (release_match_sessions (delete_session now.store seat.player_session_id) emptied)
                  _)
                refl (rw nobody refl),
          ))
        (λ somebody.
          (_, refl, gave_up _ fills (get-put_match_self now.store _) refl (rw somebody fills)))

  leave_filling-Left :
      seat.forfeited_at_ms ≡ none
      → m.status ≡ filling
      → Returns Left (
          handle_seat_expired mm.store match_id token at_ms >>= λ h.
          when_released h.result (after_policy mm h) seat at_ms)
  unfolding release_seat
  leave_filling-Left live fills =
      rw
        (handled live
          ∙ ap (λ (s : MatchStatus). by_status s m.engine_session mm.store m seat token at_ms)
              fills)
        (close_empty-Left _ fills)

  leave_running-Left :
      seat.forfeited_at_ms ≡ none
      → m.status ≡ running
      → Returns Left (
          handle_seat_expired mm.store match_id token at_ms >>= λ h.
          when_forfeited h.result (after_policy mm h))
  leave_running-Left live runs =
      let fields = subst (λ (s : MatchStatus). HasFields s m) runs kept.fields in
      let (session, plays) = fields.1 in
      let (h, e, f) =
        surrender_seat-IsForfeited mm.store m seat session token at_ms kept.one_seat kept.at_index
          found runs in
      rw
        (handled live
          ∙ ap (λ (s : MatchStatus). by_status s m.engine_session mm.store m seat token at_ms) runs
          ∙ ap (λ (o : Option Match). by_status running o mm.store m seat token at_ms) plays
          ∙ e)
        (elim f.outcome [
          | inl gone ↦ rw gone.2 (_, refl, forfeited session h runs plays f refl refl refl)
          | inr goes ↦ rw goes.2 (_, refl, forfeited session h runs plays f refl refl refl)
        ])

  leave_by-Left :
      (o : Option ℕ) (s : MatchStatus)
      → seat.forfeited_at_ms ≡ o
      → m.status ≡ s
      → Returns Left (leave_by o s mm seat match_id token at_ms)
  leave_by-Left (some t) s a b = (mm, refl, had_left (inl (t, a)) refl)
  leave_by-Left none filling a b = leave_filling-Left a b
  leave_by-Left none running a b = leave_running-Left a b
  leave_by-Left none finished a b = (mm, refl, had_left (inr (rw b (omega arith))) refl)
  leave_by-Left none collected a b = (mm, refl, had_left (inr (rw b (omega arith))) refl)

-- The answers to a player who leaves.
pub data IsLeave (mm : Matchmaker) (match_id token : Text) (at_ms : ℕ)
    (out : Matchmaker × Departure) : Type 0 where
  no_match :
      get_match mm.store match_id ≡ none
      → out ≡ (mm, leave_refused match_not_found)
      → IsLeave mm match_id token at_ms out
  no_seat :
      (m : MatchRecord)
      → get_match mm.store match_id ≡ some m
      → find_seat (values m.seats) token ≡ none
      → out ≡ (mm, leave_refused session_invalid)
      → IsLeave mm match_id token at_ms out
  left_seat :
      (m : MatchRecord) (seat : SeatRecord)
      → get_match mm.store match_id ≡ some m
      → find_seat (values m.seats) token ≡ some seat
      → HasLeft mm m seat token at_ms out.0
      → out.1 ≡ departed
      → IsLeave mm match_id token at_ms out

-- From a store whose match at the id has the fields of its state and its seats in order, a leave does not
-- throw: it is refused without any change if there is no such match or no such seat, else the player
-- leaves, as `HasLeft` says for each state of the match.
pub leave_match-IsLeave :
    (mm : Matchmaker) (match_id token : Text) (at_ms : ℕ)
    → ((m : MatchRecord) → get_match mm.store match_id ≡ some m → IsKept m)
    → Returns (IsLeave mm match_id token at_ms) (leave_match mm match_id token at_ms)
unfolding leave_match
leave_match-IsLeave mm match_id token at_ms held =
    elim (Option-cases (get_match mm.store match_id)) [
      | inl missing ↦ rw (missing, leave_match) (_, refl, no_match missing refl)
      | inr (m, known) ↦
          rw (known, leave_match)
            (elim (Option-cases (find_seat (values m.seats) token)) [
              | inl missing ↦ rw missing (_, refl, no_seat m known missing refl)
              | inr (seat, found) ↦ rw found (
                  Returns-bind (HasLeft mm m seat token at_ms) (IsLeave mm match_id token at_ms)
                    (leave_by-Left mm m seat match_id token at_ms known found (held m known) _ _
                      refl refl)
                    (λ out _ left. ((out, departed), refl, left_seat m seat known found left refl)))
            ])
    ]
