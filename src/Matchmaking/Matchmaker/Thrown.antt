-- ===== src/Matchmaking/Matchmaker/Thrown.antt =====
-- A join whose match starts, and whose event a listener does not take.
use europa_neo.Prelude.{
  ℕ, ◌≤◌, ◌≡◌, refl, sym, ◌∙◌, ap, subst, not, Option, none, some, Whenever, Whenever-some,
  Whenever-bind, Whenever-if,
}
use europa_neo.Core.Types.{Board}
use europa_neo.Engine.Run.{Match}
use europa_neo.Matchmaking.OrderedMap.{get, delete, size}
use europa_neo.Matchmaking.OrderedMap.Laws.{delete-put_new}
use europa_neo.Matchmaking.Types.{
  Text, MatchStatus, filling, running, MatchSettings, PlayerSession, MatchRecord,
  MatchStatusChanged, create_seat_record,
}
use europa_neo.Matchmaking.Store.{get_match, put_match, put_session}
use europa_neo.Matchmaking.Store.Laws.{eq_index-IsEquality, get-put_match_self}
use europa_neo.Matchmaking.EngineSession.{build_match_config, build_engine_session}
use europa_neo.Matchmaking.Lifecycle.{
  eq_index, eq_status, Seated, add_seat_to_filling_match, transition_filling_to_running,
}
use europa_neo.Matchmaking.Matchmaker.{Matchmaker}
use europa_neo.Matchmaking.Matchmaker.Starts.{
  Server, ordered_seats, player_ids, display_names, attach_all, start_session, auto_start,
}
use europa_neo.Matchmaking.Matchmaker.Seats.{
  Admission, internal_error, free_seat, rolled_back, started_or_back, take_seat, join_on,
  join_match,
}
use europa_neo.Matchmaking.Matchmaker.Rollback.{completed, free_seat-free, leb-true}

-- The match that is started from another one: it runs, with the same id and the same seats.
abbrev IsStart : MatchRecord → MatchRecord × MatchStatusChanged → Type 0
IsStart m out = (out.0.match_id ≡ m.match_id) × (out.0.status ≡ running) × (out.0.seats ≡ m.seats)

-- The join failed, and the match of the store at the id runs, with the seats it had.
abbrev pub IsLeftRunning : MatchRecord → Matchmaker × Admission → Type 0
IsLeftRunning m ended =
    (left : MatchRecord) × (get_match ended.0.store m.match_id ≡ some left)
    × (left.status ≡ running)
    × (left.seats ≡ m.seats)
    × (ended.1 ≡ internal_error)

transition_filling_to_running-IsStart :
    (m : MatchRecord) (session : Match) (at_ms : ℕ)
    → Whenever (IsStart m) (transition_filling_to_running m session at_ms)
unfolding transition_filling_to_running
transition_filling_to_running-IsStart m session at_ms =
    Whenever-if (IsStart m) (not (eq_status m.status filling)) (λ _ out e. absurd (cc))
      (λ _. Whenever-some (IsStart m) _ (refl, refl, refl))

module _ (generate_board : MatchSettings → ℕ → Option Board) (server : Server)
    (emit : MatchStatusChanged → Option (Unit {0})) where
  start_session-IsStart :
      (m : MatchRecord) (seed at_ms : ℕ)
      → Whenever (IsStart m) (start_session generate_board server m seed at_ms)
  unfolding start_session
  start_session-IsStart m seed at_ms =
      Whenever-bind (IsStart m) (ordered_seats m m.settings.player_count 0) (λ seats _.
        Whenever-bind (IsStart m) (build_match_config m.settings seed (player_ids seats)) (λ c _.
          Whenever-bind (IsStart m) (generate_board m.settings seed) (λ board _.
            Whenever-bind (IsStart m) (build_engine_session c board) (λ session _.
              Whenever-bind (IsStart m)
                (server.register_match m.match_id session c (display_names seats))
                (λ _ _. Whenever-bind (IsStart m) (attach_all server m.match_id seats) (λ _ _.
                  Whenever-bind (IsStart m) (server.enable_spectators m.match_id)
                    (λ _ _. transition_filling_to_running-IsStart m session at_ms)))))))

  module _ (mm : Matchmaker) (m : MatchRecord) (joiner : PlayerSession) (token : Text)
      (fresh_seed at_ms later_ms : ℕ) (i : ℕ) where
    abbrev full_match : MatchRecord
    full_match = completed generate_board server emit mm m joiner token fresh_seed at_ms later_ms i

    rolled_back-seats :
        (out : MatchRecord × MatchStatusChanged)
        → get eq_index m.seats i ≡ none
        → (auto_start generate_board server full_match fresh_seed later_ms).1 ≡ some out
        → (out.0.match_id ≡ m.match_id)
          × (out.0.status ≡ running)
          × (delete eq_index out.0.seats i ≡ m.seats)
    unfolding auto_start add_seat_to_filling_match create_seat_record
    rolled_back-seats out free starts =
        let (its_id, runs, seats) = start_session-IsStart _ _ later_ms out starts in
        (
          its_id,
          runs,
          ap (λ t. delete eq_index t i) seats ∙ delete-put_new eq_index-IsEquality m.seats i _ free,
        )

    take_seat-left :
        (out : MatchRecord × MatchStatusChanged)
        → get eq_index m.seats i ≡ none
        → m.settings.player_count ≤ size full_match.seats
        → (auto_start generate_board server full_match fresh_seed later_ms).1 ≡ some out
        → emit out.1 ≡ none
        → IsLeftRunning m
            (take_seat generate_board server emit mm m joiner i token fresh_seed at_ms later_ms)
    unfolding take_seat add_seat_to_filling_match create_seat_record
    take_seat-left out free full starts thrown =
        let made : Seated = add_seat_to_filling_match m joiner i at_ms token in
        let seated : Matchmaker = record mm {
          store = put_match (put_session mm.store made.session) made.match;
        } in
        let (its_id, runs, seats) = rolled_back-seats out free starts in
        let left : MatchRecord = rolled_back generate_board server emit out.0 made later_ms in
        rw (leb-true m.settings.player_count _ full) (
          subst
            (λ (o : Option (MatchRecord × MatchStatusChanged)). IsLeftRunning m (
              started_or_back generate_board server emit
                (auto_start generate_board server full_match fresh_seed later_ms).0 o seated made
                later_ms))
            (sym starts)
            (rw (thrown, started_or_back)
              (
                left,
                subst (λ k. get_match (put_match seated.store left) k ≡ some left) its_id
                    (get-put_match_self seated.store left),
                runs,
                seats,
                refl,
              )))

    -- If the joiner takes the last free seat of a filling match, the match starts, and a listener throws at
    -- the event of its start, then the join fails, yet the match that the store has at the id runs, with
    -- the seats it had before the joiner.
    pub join_match-IsLeftRunning :
        (out : MatchRecord × MatchStatusChanged)
        → get_match mm.store m.match_id ≡ some m
        → m.status ≡ filling
        → free_seat m m.settings.player_count 0 ≡ some i
        → m.settings.player_count ≤ size full_match.seats
        → (auto_start generate_board server full_match fresh_seed later_ms).1 ≡ some out
        → emit out.1 ≡ none
        → IsLeftRunning m (
            join_match generate_board server emit mm m.match_id joiner token fresh_seed at_ms
              later_ms)
    unfolding join_match
    join_match-IsLeftRunning out known fills free full starts thrown =
        rw (known, join_match)
          (subst
            (λ (o : Option ℕ).
              IsLeftRunning m
                (join_on generate_board server emit o mm m joiner token fresh_seed at_ms later_ms))
            (sym free)
            (rw (ap (λ (s : MatchStatus). eq_status s filling) fills) (
              take_seat-left out (free_seat-free m m.settings.player_count 0 i free) full starts
                thrown)))
