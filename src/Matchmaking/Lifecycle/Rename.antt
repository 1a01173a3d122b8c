-- ===== src/Matchmaking/Lifecycle/Rename.antt =====
-- The sweep of a renamed handle.
use europa_neo.Prelude.{
  ℕ, ◌≡◌, refl, sym, ◌∙◌, ap, ap₂, arith, Bool, true, false, if◌then◌else◌, Bool-cases, Option,
  none, some, [], ◌∷◌, inl, inr,
}
use europa_neo.Engine.Registry.Checks.{eq_id_refl, eq_id_sound}
use europa_neo.Matchmaking.OrderedMap.{OrderedMap}
use europa_neo.Matchmaking.Types.{Text, collected, SeatRecord, PlayerSession, MatchRecord}
use europa_neo.Matchmaking.Store.{MatchmakerStore}
use europa_neo.Matchmaking.Lifecycle.{
  eq_status, eq_optional, needs_rename, rename_sessions, rename_seats, rename_matches,
  propagate_handle_rename,
}

-- Each value of a map, at its key.
abbrev pub each {ℓ κ} : {K : Type ℓ} {V : Type κ} → (V → V) → OrderedMap K V → OrderedMap K V
each f [] = []
each f (e ∷ m) = (e.0, f e.1) ∷ each f m

choose_entry {ℓ κ} :
    {K : Type ℓ} {V : Type κ} (b : Bool) (k : K) (x y : V) (r : OrderedMap K V) (i j : ℕ)
    → (let chosen : OrderedMap K V × ℕ = if b then ((k, x) ∷ r, i) else ((k, y) ∷ r, j) in chosen.0)
      ≡ (k, if b then x else y) ∷ r
choose_entry true k x y r i j = refl
choose_entry false k x y r i j = refl

module _ (guest handle : Text) where
  -- The handle of everything that belongs to the guest.
  abbrev pub session_renamed : PlayerSession → PlayerSession
  session_renamed s =
      if eq_optional s.guest_player_id (some guest)
      then record s { accepted_handle = some handle }
      else s

  abbrev pub seat_renamed : SeatRecord → SeatRecord
  seat_renamed s =
      if eq_optional s.guest_player_id (some guest) then record s { handle = some handle } else s

  abbrev pub match_renamed : MatchRecord → MatchRecord
  match_renamed m =
      if eq_status m.status collected then m else record m { seats = each seat_renamed m.seats }

  abbrev pub renamed : MatchmakerStore → MatchmakerStore
  renamed st = record {
    matches = each match_renamed st.matches;
    sessions = each session_renamed st.sessions;
  }

  same_handle : (o : Option Text) → eq_optional o (some handle) ≡ true → o ≡ some handle
  same_handle none e = absurd (cc)
  same_handle (some t) e = ap some (eq_id_sound t handle e)

  settled : eq_optional (some handle) (some handle) ≡ true
  settled = eq_id_refl handle

  -- A test that skips what is renamed already makes no difference.
  skip_settled {ℓ} :
      {A : Type ℓ} (owner current : Option Text) (x y : A)
      → (current ≡ some handle → x ≡ y)
      → (if needs_rename guest handle owner current then x else y)
        ≡ (if eq_optional owner (some guest) then x else y)
  skip_settled owner current x y same = elim (Bool-cases (eq_optional owner (some guest))) [
    | inr foreign ↦ rw foreign refl
    | inl own ↦ elim (Bool-cases (eq_optional current (some handle))) [
      | inl done ↦ rw (own, done) (sym (same (same_handle current done)))
      | inr todo ↦ rw (own, todo) refl
    ]
  ]

  session-renamed :
      (s : PlayerSession)
      → (if needs_rename guest handle s.guest_player_id s.accepted_handle
          then record s { accepted_handle = some handle }
          else s)
        ≡ session_renamed s
  session-renamed s =
      skip_settled s.guest_player_id s.accepted_handle _ s
        (λ e. ap (λ (h : Option Text). record s { accepted_handle = h }) (sym e))

  seat-renamed :
      (s : SeatRecord)
      → (if needs_rename guest handle s.guest_player_id s.handle
          then record s { handle = some handle }
          else s)
        ≡ seat_renamed s
  seat-renamed s =
      skip_settled s.guest_player_id s.handle _ s
        (λ e. ap (λ (h : Option Text). record s { handle = h }) (sym e))

  rename_sessions-each :
      (m : OrderedMap Text PlayerSession)
      → (rename_sessions guest handle m).0 ≡ each session_renamed m
  unfolding rename_sessions
  rename_sessions-each [] = refl
  rename_sessions-each (e ∷ m) =
      choose_entry (needs_rename guest handle e.1.guest_player_id e.1.accepted_handle) e.0 _ e.1 _ _
        _
      ∙ ap₂ (λ (s : PlayerSession) (r : OrderedMap Text PlayerSession). (e.0, s) ∷ r)
          (session-renamed e.1) (rename_sessions-each m)

  rename_seats-each :
      (m : OrderedMap ℕ SeatRecord) → (rename_seats guest handle m).0 ≡ each seat_renamed m
  unfolding rename_seats
  rename_seats-each [] = refl
  rename_seats-each (e ∷ m) =
      choose_entry (needs_rename guest handle e.1.guest_player_id e.1.handle) e.0 _ e.1 _ _ _
      ∙ ap₂ (λ (s : SeatRecord) (r : OrderedMap ℕ SeatRecord). (e.0, s) ∷ r) (seat-renamed e.1)
          (rename_seats-each m)

  rename_matches-each :
      (m : OrderedMap Text MatchRecord) → (rename_matches guest handle m).0 ≡ each match_renamed m
  unfolding rename_matches
  rename_matches-each [] = refl
  rename_matches-each (e ∷ m) = elim (Bool-cases (eq_status e.1.status collected)) [
    | inl dead ↦ rw dead (ap (λ (r : OrderedMap Text MatchRecord). e ∷ r) (rename_matches-each m))
    | inr live ↦ rw live (
        ap₂
          (λ (s : OrderedMap ℕ SeatRecord) (r : OrderedMap Text MatchRecord).
            (e.0, record e.1 { seats = s }) ∷ r)
          (rename_seats-each e.1.seats) (rename_matches-each m))
  ]

  session-settled :
      (s : PlayerSession)
      → needs_rename guest handle
          (session_renamed s).guest_player_id
          (session_renamed s).accepted_handle
        ≡ false
  session-settled s = elim (Bool-cases (eq_optional s.guest_player_id (some guest))) [
    | inl own ↦ rw (own, own, settled) refl
    | inr foreign ↦ rw (foreign, foreign) refl
  ]

  seat-settled :
      (s : SeatRecord)
      → needs_rename guest handle (seat_renamed s).guest_player_id (seat_renamed s).handle ≡ false
  seat-settled s = elim (Bool-cases (eq_optional s.guest_player_id (some guest))) [
    | inl own ↦ rw (own, own, settled) refl
    | inr foreign ↦ rw (foreign, foreign) refl
  ]

  sessions_settled :
      (m : OrderedMap Text PlayerSession)
      → (rename_sessions guest handle (each session_renamed m)).1 ≡ 0
  unfolding rename_sessions
  sessions_settled [] = refl
  sessions_settled (e ∷ m) = rw (session-settled e.1) (sessions_settled m)

  seats_settled :
      (m : OrderedMap ℕ SeatRecord) → (rename_seats guest handle (each seat_renamed m)).1 ≡ 0
  unfolding rename_seats
  seats_settled [] = refl
  seats_settled (e ∷ m) = rw (seat-settled e.1) (seats_settled m)

  matches_settled :
      (m : OrderedMap Text MatchRecord) → (rename_matches guest handle (each match_renamed m)).1 ≡ 0
  unfolding rename_matches
  matches_settled [] = refl
  matches_settled (e ∷ m) = elim (Bool-cases (eq_status e.1.status collected)) [
    | inl dead ↦ rw (dead, dead) (matches_settled m)
    | inr live ↦ rw (live, live) (omega (arith, seats_settled e.1.seats, matches_settled m))
  ]

  -- The sweep gives the guest's new handle to every session of the guest and to every seat of the guest
  -- in a match that is not collected, changes nothing else, and a second sweep changes nothing.
  pub propagate_handle_rename-renamed :
      (st : MatchmakerStore)
      → ((propagate_handle_rename guest handle st).0 ≡ renamed st)
        × ((propagate_handle_rename guest handle (renamed st)).1 ≡ (0, 0))
  unfolding propagate_handle_rename
  propagate_handle_rename-renamed st = (
    ap₂
        (λ (m : OrderedMap Text MatchRecord) (s : OrderedMap Text PlayerSession).
          let out : MatchmakerStore = record { matches = m; sessions = s } in out)
        (rename_matches-each st.matches) (rename_sessions-each st.sessions),
    ap₂ (λ (a b : ℕ). (a, b)) (sessions_settled st.sessions) (matches_settled st.matches),
  )
