-- ===== src/Matchmaking/Matchmaker/Expiry.antt =====
-- The three sweeps of a read.
use europa_neo.Prelude.{
  ℕ, ◌≡◌, refl, sym, ◌∙◌, ap, subst, fun_ext, arith, inl, inr, Bool, true, false, ◌||◌, Bool-cases,
  if◌then◌else◌, if-elim, [], ◌∷◌, Memᴰ, Returns,
}
use mathlib.Core.List.Memᴰ
use europa_neo.Matchmaking.OrderedMap.{OrderedMap, values}
use europa_neo.Matchmaking.Types.{Text, collected, MatchRecord}
use europa_neo.Matchmaking.Store.{list_matches}
use europa_neo.Matchmaking.Lifecycle.{eq_status}
use europa_neo.Matchmaking.Lifecycle.Rename.{each}
use europa_neo.Matchmaking.Matchmaker.{
  Limits, Matchmaker, rematch_lapsed, results_lapsed, empty_lapsed, sweep_expired_rematches,
  sweep_finished_results_ttl, sweep_stale_empty_matches, run_lazy_sweeps,
}
use europa_neo.Matchmaking.Matchmaker.Sweeps.{gone, swept, AreMatches, sweep-all, swept-AreMatches}

each-each :
    (f g : MatchRecord → MatchRecord) (ms : OrderedMap Text MatchRecord)
    → each g (each f ms) ≡ each (λ m. g (f m)) ms
each-each f g [] = refl
each-each f g (e ∷ ms) =
    ap (λ (r : OrderedMap Text MatchRecord). (e.0, g (f e.1)) ∷ r) (each-each f g ms)

-- A match that has reached the end of one of its terms.
abbrev pub is_due : Limits → ℕ → MatchRecord → Bool
is_due limits at_ms m =
    rematch_lapsed at_ms m || results_lapsed limits at_ms m || empty_lapsed limits at_ms m

swept_yes :
    (lapsed : MatchRecord → Bool) (at_ms : ℕ) (m : MatchRecord)
    → lapsed m ≡ true
    → swept lapsed at_ms m ≡ gone at_ms m
swept_yes lapsed at_ms m e = rw e refl

swept_no :
    (lapsed : MatchRecord → Bool) (at_ms : ℕ) (m : MatchRecord)
    → lapsed m ≡ false
    → swept lapsed at_ms m ≡ m
swept_no lapsed at_ms m e = rw e refl

module _ (limits : Limits) (at_ms : ℕ) where
  rematch_live :
      (m : MatchRecord) → rematch_lapsed at_ms m ≡ true → eq_status m.status collected ≡ false
  rematch_live m e = ground arith

  results_live :
      (m : MatchRecord)
      → results_lapsed limits at_ms m ≡ true
      → eq_status m.status collected ≡ false
  results_live m e = ground arith

  empty_live :
      (m : MatchRecord) → empty_lapsed limits at_ms m ≡ true → eq_status m.status collected ≡ false
  empty_live m e = ground arith

  abbrev thrice : MatchRecord → MatchRecord
  thrice m =
      swept (empty_lapsed limits at_ms) at_ms
        (swept (results_lapsed limits at_ms) at_ms (swept (rematch_lapsed at_ms) at_ms m))

  thrice-once : (m : MatchRecord) → thrice m ≡ swept (is_due limits at_ms) at_ms m
  thrice-once m = elim (Bool-cases (rematch_lapsed at_ms m)) [
    | inl a ↦
        ap (λ (n : MatchRecord). swept E at_ms (swept R at_ms n))
          (swept_yes (rematch_lapsed at_ms) at_ms m a)
        ∙ sym (swept_yes (is_due limits at_ms) at_ms m (ground arith))
    | inr a ↦
        ap (λ (n : MatchRecord). swept E at_ms (swept R at_ms n))
          (swept_no (rematch_lapsed at_ms) at_ms m a)
        ∙ elim (Bool-cases (R m)) [
          | inl b ↦
              ap (swept E at_ms) (swept_yes R at_ms m b)
              ∙ sym (swept_yes (is_due limits at_ms) at_ms m (ground arith))
          | inr b ↦
              ap (swept E at_ms) (swept_no R at_ms m b)
              ∙ ap (λ (t : Bool). if t then gone at_ms m else m) (only_empty a b)
        ]
  ]
    where
      R : MatchRecord → Bool
      R = results_lapsed limits at_ms

      E : MatchRecord → Bool
      E = empty_lapsed limits at_ms

      only_empty : rematch_lapsed at_ms m ≡ false → R m ≡ false → E m ≡ is_due limits at_ms m
      only_empty a b = rw (a, b) refl

  swept-due : (m : MatchRecord) → is_due limits at_ms (swept (is_due limits at_ms) at_ms m) ≡ false
  swept-due m =
      if-elim (λ (n : MatchRecord). is_due limits at_ms n ≡ false) (is_due limits at_ms m)
        (λ _. refl) (λ early. early)

  none_due :
      (ms : OrderedMap Text MatchRecord) (m : MatchRecord)
      → Memᴰ m (values (each (swept (is_due limits at_ms) at_ms) ms))
      → is_due limits at_ms m ≡ false
  none_due [] m i = elim i [ ]
  none_due (e ∷ ms) m i = elim (Memᴰ.cases_cons i) [
    | inl first ↦
        subst (λ (n : MatchRecord). is_due limits at_ms n ≡ false) (sym first) (swept-due e.1)
    | inr later ↦ none_due ms m later
  ]

  -- The sweeps do not throw. They collect, at once and in place, exactly the matches that are due: the
  -- finished ones whose rematch window or, without an open window, whose results term is over, and the
  -- filling ones that were idle for their term; afterwards no match is due.
  pub run_lazy_sweeps-Collects :
      (mm : Matchmaker)
      → AreMatches mm.store.matches
      → Returns
          (λ out.
            (out.store.matches ≡ each (swept (is_due limits at_ms) at_ms) mm.store.matches)
            × ((m : MatchRecord) → Memᴰ m (list_matches out.store) → is_due limits at_ms m ≡ false))
          (run_lazy_sweeps limits at_ms mm)
  unfolding run_lazy_sweeps sweep_expired_rematches sweep_finished_results_ttl
      sweep_stale_empty_matches
  run_lazy_sweeps-Collects mm h =
      let (a, ea, pa) = sweep-all (rematch_lapsed at_ms) at_ms rematch_live mm h in
      let ha : AreMatches a.store.matches =
        subst AreMatches (sym pa)
          (swept-AreMatches (rematch_lapsed at_ms) at_ms rematch_live mm.store.matches h) in
      let (b, eb, pb) = sweep-all (results_lapsed limits at_ms) at_ms results_live a ha in
      let hb : AreMatches b.store.matches =
        subst AreMatches (sym pb)
          (swept-AreMatches (results_lapsed limits at_ms) at_ms results_live a.store.matches ha) in
      let (c, ec, pc) = sweep-all (empty_lapsed limits at_ms) at_ms empty_live b hb in
      let total : c.store.matches ≡ each (swept (is_due limits at_ms) at_ms) mm.store.matches =
        pc
        ∙ ap (each (swept (empty_lapsed limits at_ms) at_ms)) (
            pb
            ∙ ap (each (swept (results_lapsed limits at_ms) at_ms)) pa
            ∙ each-each _ _ mm.store.matches)
        ∙ each-each _ _ mm.store.matches
        ∙ ap (λ (f : MatchRecord → MatchRecord). each f mm.store.matches) (fun_ext thrice-once) in
      (
        c,
        rw (ea, eb) ec,
        (
          total,
          λ m i.
              none_due mm.store.matches m
                (subst (λ (ms : OrderedMap Text MatchRecord). Memᴰ m (values ms)) total i),
        ),
      )
