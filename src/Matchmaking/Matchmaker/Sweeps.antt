-- ===== src/Matchmaking/Matchmaker/Sweeps.antt =====
-- What the sweeps of the expired matches leave.
use europa_neo.Prelude.{
  ℕ, ◌≡◌, refl, sym, ◌∙◌, ap, ◌⊎◌, inl, inr, Bool, true, false, Bool-cases, if◌then◌else◌, if-elim,
  Option, none, some, List, [], ◌∷◌, ◌++◌, Memᴰ, Returns, Returns-bind, subst,
}
use mathlib.Core.List.{append_assoc}
use mathlib.Core.List.Memᴰ
use europa_neo.Core.PlayerId.{eq_id}
use europa_neo.Engine.Registry.Checks.{eq_id_refl, eq_id_sound}
use europa_neo.Matchmaking.OrderedMap.{OrderedMap, put, values, keys}
use europa_neo.Matchmaking.Types.{Text, collected, MatchRecord, SeatRecord, PlayerSession}
use europa_neo.Matchmaking.Store.{MatchmakerStore, get_session, list_matches}
use europa_neo.Matchmaking.Lifecycle.{
  eq_status, eq_optional, release_session, release_seats, release_match_sessions,
  transition_to_collected,
}
use europa_neo.Matchmaking.Lifecycle.Rename.{each}
use europa_neo.Matchmaking.Matchmaker.{Matchmaker, collect_match, sweep}

-- A match as its collection leaves it.
abbrev pub gone : ℕ → MatchRecord → MatchRecord
gone at_ms m = record m { status = collected; last_activity_at_ms = at_ms }

abbrev pub swept : (MatchRecord → Bool) → ℕ → MatchRecord → MatchRecord
swept lapsed at_ms m = if lapsed m then gone at_ms m else m

-- Each match stands at its id, once.
abbrev pub AreMatches : OrderedMap Text MatchRecord → Type 0
AreMatches [] = Unit
AreMatches (e ∷ m) = (e.0 ≡ e.1.match_id) × (Memᴰ e.0 (keys m) → ⊥) × AreMatches m

release_session-matches :
    (match_id : Text) (st : MatchmakerStore) (seat : SeatRecord) (o : Option PlayerSession)
    → (release_session match_id st seat o).matches ≡ st.matches
release_session-matches match_id st seat none = refl
release_session-matches match_id st seat (some s) =
    if-elim (λ (out : MatchmakerStore). out.matches ≡ st.matches)
      (eq_optional s.current_match_id (some match_id)) (λ _. refl) (λ _. refl)

release_seats-matches :
    (match_id : Text) (seats : List SeatRecord) (st : MatchmakerStore)
    → (release_seats match_id seats st).matches ≡ st.matches
unfolding release_seats
release_seats-matches match_id [] st = refl
release_seats-matches match_id (seat ∷ seats) st =
    release_seats-matches match_id seats _
    ∙ release_session-matches match_id st seat (get_session st seat.player_session_id)

-- A put at a key that stands after `before`.
put-append :
    (before after : OrderedMap Text MatchRecord) (k : Text) (v w : MatchRecord)
    → (Memᴰ k (keys before) → ⊥)
    → put eq_id (before ++ (k, v) ∷ after) k w ≡ before ++ (k, w) ∷ after
unfolding put
put-append [] after k v w out = rw (eq_id_refl k) refl
put-append (e ∷ before) after k v w out = elim (Bool-cases (eq_id e.0 k)) [
  | inl same ↦ absurd (out (Memᴰ.head (sym (eq_id_sound e.0 k same))))
  | inr other ↦ rw other (
      ap (λ (m : OrderedMap Text MatchRecord). e ∷ m)
        (put-append before after k v w (λ i. out (Memᴰ.tail i))))
]

in_keys-append :
    (before : OrderedMap Text MatchRecord) (e : Text × MatchRecord) (k : Text)
    → Memᴰ k (keys (before ++ e ∷ []))
    → Memᴰ k (keys before) ⊎ (k ≡ e.0)
in_keys-append [] e k i = inr (Memᴰ.eq_of_singleton i)
in_keys-append (x ∷ before) e k i = elim (Memᴰ.cases_cons i) [
  | inl first ↦ inl (Memᴰ.head first)
  | inr later ↦ elim (in_keys-append before e k later) [
    | inl old ↦ inl (Memᴰ.tail old)
    | inr new ↦ inr new
  ]
]

-- The collection of a match that stands after `before`.
collect_match-gone :
    (mm : Matchmaker) (m : MatchRecord) (at_ms : ℕ) (before after : OrderedMap Text MatchRecord)
    → eq_status m.status collected ≡ false
    → mm.store.matches ≡ before ++ (m.match_id, m) ∷ after
    → (Memᴰ m.match_id (keys before) → ⊥)
    → Returns
        (λ out. out.store.matches ≡ before ++ (m.match_id, gone at_ms m) ∷ after)
        (collect_match mm m at_ms)
unfolding collect_match transition_to_collected release_match_sessions
collect_match-gone mm m at_ms before after live here out = rw live (
  _,
  refl,
  ap (λ (ms : OrderedMap Text MatchRecord). put eq_id ms m.match_id (gone at_ms m))
        (release_seats-matches m.match_id (values m.seats) mm.store ∙ here)
      ∙ put-append before after m.match_id m (gone at_ms m) out,
)

module _ (lapsed : MatchRecord → Bool) (at_ms : ℕ)
    (live : (m : MatchRecord) → lapsed m ≡ true → eq_status m.status collected ≡ false) where
  sweep-from :
      (rest before : OrderedMap Text MatchRecord) (mm : Matchmaker)
      → AreMatches rest
      → mm.store.matches ≡ before ++ rest
      → ((k : Text) → Memᴰ k (keys rest) → Memᴰ k (keys before) → ⊥)
      → Returns
          (λ out. out.store.matches ≡ before ++ each (swept lapsed at_ms) rest)
          (sweep lapsed at_ms (values rest) mm)
  unfolding sweep
  sweep-from [] before mm h here apart = (mm, refl, here)
  sweep-from (e ∷ rest) before mm h here apart =
      Returns-bind
        (λ (out : Matchmaker). out.store.matches ≡ before ++ (e.0, swept lapsed at_ms e.1) ∷ rest)
        (λ out. out.store.matches ≡ before ++ each (swept lapsed at_ms) (e ∷ rest)) one
        (λ out _ there.
          let (last, done, final) =
            sweep-from rest (before ++ (e.0, swept lapsed at_ms e.1) ∷ []) out h.2
              (there ∙ sym (append_assoc before _ rest))
              (λ k i j. elim (in_keys-append before _ k j) [
                | inl old ↦ apart k (Memᴰ.tail i) old
                | inr same ↦ h.1 (Memᴰ.cast (sym same) i)
              ]) in
          (last, done, final ∙ append_assoc before _ _))
    where
      one :
          Returns
            (λ (out : Matchmaker).
              out.store.matches ≡ before ++ (e.0, swept lapsed at_ms e.1) ∷ rest)
            (if lapsed e.1 then collect_match mm e.1 at_ms else some mm)
      one = elim (Bool-cases (lapsed e.1)) [
        | inl due ↦ rw due (
            subst
              (λ (k : Text).
                mm.store.matches ≡ before ++ (k, e.1) ∷ rest
                → (Memᴰ k (keys before) → ⊥)
                → Returns
                    (λ (out : Matchmaker). out.store.matches ≡ before ++ (k, gone at_ms e.1) ∷ rest)
                    (collect_match mm e.1 at_ms))
              (sym h.0) (collect_match-gone mm e.1 at_ms before rest (live e.1 due)) here
              (apart e.0 (Memᴰ.head refl)))
        | inr early ↦ rw early (mm, refl, here)
      ]

  pub sweep-all :
      (mm : Matchmaker)
      → AreMatches mm.store.matches
      → Returns
          (λ out. out.store.matches ≡ each (swept lapsed at_ms) mm.store.matches)
          (sweep lapsed at_ms (list_matches mm.store) mm)
  sweep-all mm h = sweep-from mm.store.matches [] mm h refl (λ k i j. elim j [ ])

  swept_id : (m : MatchRecord) → m.match_id ≡ (swept lapsed at_ms m).match_id
  swept_id m =
      if-elim (λ (n : MatchRecord). m.match_id ≡ n.match_id) (lapsed m) (λ _. refl) (λ _. refl)

  keys-each : (ms : OrderedMap Text MatchRecord) → keys (each (swept lapsed at_ms) ms) ≡ keys ms
  keys-each [] = refl
  keys-each (e ∷ ms) = ap (λ (ks : List Text). e.0 ∷ ks) (keys-each ms)

  pub swept-AreMatches :
      (ms : OrderedMap Text MatchRecord) → AreMatches ms → AreMatches (each (swept lapsed at_ms) ms)
  swept-AreMatches [] h = tt
  swept-AreMatches (e ∷ ms) h = (
    h.0 ∙ swept_id e.1,
    λ i. h.1 (subst (λ (ks : List Text). Memᴰ e.0 ks) (keys-each ms) i),
    swept-AreMatches ms h.2,
  )
