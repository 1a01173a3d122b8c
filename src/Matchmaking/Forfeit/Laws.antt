-- ===== src/Matchmaking/Forfeit/Laws.antt =====
-- An expired seat of a running match.
use europa_neo.Prelude.{
  ℕ, ◌<◌, ◌≡◌, refl, sym, ◌∙◌, ap, ap₂, arith, ◌⊎◌, inl, inr, true, false, ◌==◌, Bool-cases, Option,
  none, some, [], ◌∷◌, Memᴰ, Returns, Returns-if, ==→≡, ≢→==, ≡→==,
}
use mathlib.Core.List.Memᴰ
use europa_neo.Core.PlayerId.{eq_id}
use europa_neo.Engine.Types.{surrender}
use europa_neo.Engine.Run.{Match}
use europa_neo.Matchmaking.OrderedMap.{OrderedMap, put, values, keys}
use europa_neo.Matchmaking.OrderedMap.Laws.{IsMap}
use europa_neo.Matchmaking.Types.{Text, MatchStatus, running, collected, SeatRecord, MatchRecord}
use europa_neo.Matchmaking.Store.{MatchmakerStore, get_match, put_match}
use europa_neo.Matchmaking.Store.Laws.{get-put_match_self}
use europa_neo.Matchmaking.EngineSession.{submit}
use europa_neo.Matchmaking.Lifecycle.{
  eq_index, eq_status, release_match_sessions, transition_to_collected,
}
use europa_neo.Matchmaking.Forfeit.{
  detach_player, unregister_match, torn_down, surrendered, Handled, ignored, find_seat,
  count_living, handle_all_players_forfeited, stamp, surrender_seat, by_status, unless_forfeited,
  with_seat, with_match, handle_seat_expired,
}

-- Each seat stands at its index.
abbrev pub AreSeats : OrderedMap ℕ SeatRecord → Type 0
AreSeats [] = Unit
AreSeats (e ∷ m) = (e.0 ≡ e.1.seat_index) × AreSeats m

some_seat : {a b : SeatRecord} → some a ≡ some b → a ≡ b
some_seat q = cc

index_of_seat : {a b : SeatRecord} → a ≡ b → a.seat_index ≡ b.seat_index
index_of_seat e = ap (λ (s : SeatRecord). s.seat_index) e

seat_key :
    (m : OrderedMap ℕ SeatRecord) (token : Text) (seat : SeatRecord)
    → AreSeats m
    → find_seat (values m) token ≡ some seat
    → Memᴰ seat.seat_index (keys m)
seat_key [] token seat h = λ e. absurd (cc)
seat_key (x ∷ m) token seat h = elim (Bool-cases (eq_id x.1.session_token token)) [
  | inl here ↦ rw here (λ e. Memᴰ.head (index_of_seat (some_seat (sym e)) ∙ sym h.0))
  | inr later ↦ rw later (λ e. Memᴰ.tail (seat_key m token seat h.1 e))
]

-- A seat that is replaced is found where it was.
find_seat-put :
    (m : OrderedMap ℕ SeatRecord) (token : Text) (seat new : SeatRecord)
    → IsMap m
    → AreSeats m
    → new.session_token ≡ seat.session_token
    → find_seat (values m) token ≡ some seat
    → find_seat (values (put eq_index m seat.seat_index new)) token ≡ some new
unfolding put
find_seat-put [] token seat new d h same = λ e. absurd (cc)
find_seat-put (x ∷ m) token seat new d h same = elim (Bool-cases (eq_id x.1.session_token token)) [
  | inl here ↦ λ e.
      let found : x.1 ≡ seat = some_seat (sym (first here) ∙ e) in
      let key : (x.0 == seat.seat_index) ≡ true = ≡→== _ _ (h.0 ∙ index_of_seat found) in
      let shown : eq_id new.session_token token ≡ true =
        ap (λ (t : Text). eq_id t token)
          (same ∙ ap (λ (s : SeatRecord). s.session_token) (sym found))
        ∙ here in
      rw (key, shown) refl
  | inr later ↦ λ e.
      let rest = sym (second later) ∙ e in
      let key : (x.0 == seat.seat_index) ≡ false =
        ≢→== _ _ (λ q. d.0 (Memᴰ.cast q (seat_key m token seat h.1 rest))) in
      rw (key, later) (find_seat-put m token seat new d.1 h.1 same rest)
]
  where
    first : eq_id x.1.session_token token ≡ true → find_seat (values (x ∷ m)) token ≡ some x.1
    first e = rw e refl

    second :
        eq_id x.1.session_token token ≡ false
        → find_seat (values (x ∷ m)) token ≡ find_seat (values m) token
    second e = rw e refl

-- What becomes of a seat that expires in a running match, at time `now_ms`: `after` is the engine's run
-- after the surrender, `h` what the policy returns.
pub record IsForfeited (m : MatchRecord) (seat : SeatRecord) (after : Match) (token : Text)
    (now_ms : ℕ) (h : Handled) : Type 0 where
  pub left : MatchRecord
  pub listed : get_match h.store m.match_id ≡ some left
  pub stamped :
      find_seat (values left.seats) token ≡ some (record seat { forfeited_at_ms = some now_ms })
  pub played : left.engine_session ≡ some after
  pub outcome :
      ((count_living after.world.players ≡ 0)
        × (left.status ≡ collected)
        × (h.result ≡ some (record { match = left; remaining_players = 0; outcome = torn_down }))
        × (h.calls
            ≡ detach_player m.match_id seat.player_id token ∷ unregister_match m.match_id ∷ []))
      ⊎ ((0 < count_living after.world.players)
          × (left.status ≡ running)
          × (h.result
              ≡ some (record {
                match = left;
                remaining_players = count_living after.world.players;
                outcome = surrendered;
              }))
          × (h.calls ≡ detach_player m.match_id seat.player_id token ∷ []))

positive : (n : ℕ) → (n == 0) ≡ false → 0 < n
positive n e = ground arith

module _ (st : MatchmakerStore) (m : MatchRecord) (seat : SeatRecord) (session : Match)
    (token : Text) (now_ms : ℕ) (is_map : IsMap m.seats) (seats : AreSeats m.seats)
    (found : find_seat (values m.seats) token ≡ some seat) (runs : m.status ≡ running) where
  abbrev after : Match
  after = (submit session (surrender seat.player_id)).0

  abbrev stamped_match : MatchRecord
  stamped_match = stamp m seat after now_ms

  pub surrender_seat-IsForfeited :
      Returns
        (IsForfeited m seat after token now_ms)
        (surrender_seat st m seat session token now_ms)
  unfolding surrender_seat stamp handle_all_players_forfeited transition_to_collected
  surrender_seat-IsForfeited =
      Returns-if (IsForfeited m seat after token now_ms) (count_living after.world.players == 0)
        (λ nobody.
          let live : eq_status m.status collected ≡ false =
            ap (λ (s : MatchStatus). eq_status s collected) runs in
          rw live (
            _,
            refl,
            record {
              left = _;
              listed =
                  get-put_match_self
                    (release_match_sessions (put_match st stamped_match) stamped_match) _;
              stamped = find_seat-put m.seats token seat _ is_map seats refl found;
              played = refl;
              outcome = inl (==→≡ _ 0 nobody, refl, refl, refl);
            },
          ))
        (λ somebody. (
          _,
          refl,
          record {
            left = stamped_match;
            listed = get-put_match_self st stamped_match;
            stamped = find_seat-put m.seats token seat _ is_map seats refl found;
            played = refl;
            outcome = inr (positive _ somebody, runs, refl, refl);
          },
        ))

-- A seat that has forfeited is ignored.
forfeited_ignored :
    (st : MatchmakerStore) (match_id token : Text) (later at_ms : ℕ) (m : MatchRecord)
    (seat : SeatRecord)
    → get_match st match_id ≡ some m
    → find_seat (values m.seats) token ≡ some (record seat { forfeited_at_ms = some at_ms })
    → handle_seat_expired st match_id token later ≡ some (ignored st)
unfolding handle_seat_expired
forfeited_ignored st match_id token later at_ms m seat known found =
    ap (λ (o : Option MatchRecord). with_match o st token later) known
    ∙ ap (λ (o : Option SeatRecord). with_seat o st m token later) found

-- The expiry of a seat that has not forfeited, in a running match, does not throw: the player surrenders
-- in the engine, the seat is stamped and detached, and if nobody is left alive the match is collected
-- and unregistered, else it goes on; a second expiry of the seat, at any time, changes nothing.
pub handle_seat_expired-IsForfeited :
    (st : MatchmakerStore) (m : MatchRecord) (seat : SeatRecord) (session : Match) (token : Text)
    (now_ms later : ℕ)
    → get_match st m.match_id ≡ some m
    → IsMap m.seats
    → AreSeats m.seats
    → find_seat (values m.seats) token ≡ some seat
    → seat.forfeited_at_ms ≡ none
    → m.status ≡ running
    → m.engine_session ≡ some session
    → Returns
        (λ h.
          IsForfeited m seat (submit session (surrender seat.player_id)).0 token now_ms h
          × (handle_seat_expired h.store m.match_id token later ≡ some (ignored h.store)))
        (handle_seat_expired st m.match_id token now_ms)
unfolding handle_seat_expired
handle_seat_expired-IsForfeited st m seat session token now_ms later known is_map seats found live
      runs plays =
    let (h, e, f) =
      surrender_seat-IsForfeited st m seat session token now_ms is_map seats found runs in
    (
      h,
      ap (λ (o : Option MatchRecord). with_match o st token now_ms) known
          ∙ ap (λ (o : Option SeatRecord). with_seat o st m token now_ms) found
          ∙ ap (λ (o : Option ℕ). unless_forfeited o st m seat token now_ms) live
          ∙ ap₂ (λ (s : MatchStatus) (o : Option Match). by_status s o st m seat token now_ms) runs
              plays
          ∙ e,
      (f, forfeited_ignored h.store m.match_id token later now_ms f.left seat f.listed f.stamped),
    )
