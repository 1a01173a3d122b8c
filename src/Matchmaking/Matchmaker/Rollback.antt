-- ===== src/Matchmaking/Matchmaker/Rollback.antt =====
-- A join whose match cannot start.
use europa_neo.Prelude.{
  ℕ, zero, suc, ◌+◌, ◌≤◌, ◌≡◌, sym, ◌∙◌, ap, ap₂, arith, true, inl, inr, leb, Option, none, some,
  Option-cases,
}
use europa_neo.Core.Types.{Board}
use europa_neo.Core.PlayerId.{eq_id}
use europa_neo.Matchmaking.OrderedMap.{OrderedMap, get, put, delete, size}
use europa_neo.Matchmaking.OrderedMap.Laws.{put-put, delete-put_new}
use europa_neo.Matchmaking.Types.{
  Text, MatchStatus, filling, MatchSettings, SeatRecord, PlayerSession, MatchRecord,
  MatchStatusChanged, create_seat_record,
}
use europa_neo.Matchmaking.Store.{MatchmakerStore, get_match, put_match, put_session, get_session}
use europa_neo.Matchmaking.Store.Laws.{eq_id-IsEquality, eq_index-IsEquality}
use europa_neo.Matchmaking.Lifecycle.{eq_index, eq_status, Seated, add_seat_to_filling_match}
use europa_neo.Matchmaking.Matchmaker.{Matchmaker}
use europa_neo.Matchmaking.Matchmaker.Starts.{Server, auto_start, seed_of}
use europa_neo.Matchmaking.Matchmaker.Seats.{
  Admission, internal_error, free_seat, started_or_back, take_seat, join_on, join_match,
}

pub free_seat-free :
    (m : MatchRecord) (tries index i : ℕ)
    → free_seat m tries index ≡ some i
    → get eq_index m.seats i ≡ none
unfolding free_seat
free_seat-free m zero index i = λ e. absurd (cc)
free_seat-free m (suc tries) index i = elim (Option-cases (get eq_index m.seats index)) [
  | inl free ↦ rw free (λ e. ap (get eq_index m.seats) (some_inj (sym e)) ∙ free)
  | inr (seat, taken) ↦ rw taken (λ e. free_seat-free m tries (index + 1) i e)
]
  where
    some_inj : {a b : ℕ} → some a ≡ some b → a ≡ b
    some_inj q = cc

pub leb-true : (a b : ℕ) → a ≤ b → leb a b ≡ true
leb-true a b h = ground arith

module _ (generate_board : MatchSettings → ℕ → Option Board) (server : Server)
    (emit : MatchStatusChanged → Option (Unit {0})) (mm : Matchmaker) (m : MatchRecord)
    (joiner : PlayerSession) (token : Text) (fresh_seed at_ms later_ms : ℕ) where
  -- The record that the joiner's seat completes.
  abbrev pub completed : ℕ → MatchRecord
  completed i = (add_seat_to_filling_match m joiner i at_ms token).match

  -- The match without the joiner: it has a seed now, and its time starts anew.
  abbrev pub untouched : MatchRecord
  untouched = record m {
    initial_seed = some (seed_of m.initial_seed fresh_seed);
    last_activity_at_ms = later_ms;
  }

  store_back :
      (i : ℕ)
      → get eq_index m.seats i ≡ none
      → get_session mm.store joiner.player_session_id ≡ none
      → ◌≡◌ {A = MatchmakerStore}
          (record {
            matches =
                put eq_id
                  (put eq_id mm.store.matches m.match_id (completed i))
                  m.match_id
                  (record (completed i) {
                    initial_seed = some (seed_of m.initial_seed fresh_seed);
                    seats = delete eq_index (completed i).seats i;
                    last_activity_at_ms = later_ms;
                  });
            sessions =
                delete eq_id
                  (put eq_id mm.store.sessions joiner.player_session_id
                    (add_seat_to_filling_match m joiner i at_ms token).session)
                  joiner.player_session_id;
          })
          (put_match mm.store untouched)
  unfolding add_seat_to_filling_match
  store_back i free new =
      ap₂
        (λ (ms : OrderedMap Text MatchRecord) (ss : OrderedMap Text PlayerSession).
          let st : MatchmakerStore = record { matches = ms; sessions = ss } in st)
        (put-put eq_id-IsEquality mm.store.matches m.match_id _ _
          ∙ ap
              (λ (seats : OrderedMap ℕ SeatRecord).
                put eq_id mm.store.matches m.match_id (record untouched { seats = seats }))
              (delete-put_new eq_index-IsEquality m.seats i _ free))
        (delete-put_new eq_id-IsEquality mm.store.sessions joiner.player_session_id _ new)

  take_seat-back :
      (i : ℕ)
      → get eq_index m.seats i ≡ none
      → get_session mm.store joiner.player_session_id ≡ none
      → m.settings.player_count ≤ size (completed i).seats
      → (auto_start generate_board server (completed i) fresh_seed later_ms).1 ≡ none
      → take_seat generate_board server emit mm m joiner i token fresh_seed at_ms later_ms
        ≡ (record mm { store = put_match mm.store untouched }, internal_error)
  unfolding take_seat auto_start add_seat_to_filling_match create_seat_record put delete
  take_seat-back i free new full fails =
      let made : Seated = add_seat_to_filling_match m joiner i at_ms token in
      let seeded : MatchRecord = record (completed i) {
        initial_seed = some (seed_of m.initial_seed fresh_seed);
      } in
      let seated : Matchmaker = record mm {
        store = put_match (put_session mm.store made.session) made.match;
      } in
      rw (leb-true m.settings.player_count _ full) (
        ap
          (λ (o : Option (MatchRecord × MatchStatusChanged)).
            started_or_back generate_board server emit seeded o seated made later_ms)
          fails
        ∙ ap
            (λ (st : MatchmakerStore).
              let out : Matchmaker × Admission = (record mm { store = st }, internal_error) in out)
            (store_back i free new))

  -- If the joiner takes the last free seat of a filling match and the match cannot start, because of its
  -- seats, the board generator, the engine or the registration, then the join fails, and everything is as
  -- it was, but for the seed and the time of the match; the joiner's session must be new.
  pub join_match-untouched :
      (i : ℕ)
      → get_match mm.store m.match_id ≡ some m
      → m.status ≡ filling
      → free_seat m m.settings.player_count 0 ≡ some i
      → get_session mm.store joiner.player_session_id ≡ none
      → m.settings.player_count ≤ size (completed i).seats
      → (auto_start generate_board server (completed i) fresh_seed later_ms).1 ≡ none
      → join_match generate_board server emit mm m.match_id joiner token fresh_seed at_ms later_ms
        ≡ (record mm { store = put_match mm.store untouched }, internal_error)
  unfolding join_match
  join_match-untouched i known fills free new full fails =
      rw (known, join_match)
        (ap
            (λ (o : Option ℕ).
              join_on generate_board server emit o mm m joiner token fresh_seed at_ms later_ms)
            free
          ∙ rw (ap (λ (s : MatchStatus). eq_status s filling) fills)
              (take_seat-back i (free_seat-free m m.settings.player_count 0 i free) new full fails))
