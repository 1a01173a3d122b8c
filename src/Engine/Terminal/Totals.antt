-- ===== src/Engine/Terminal/Totals.antt =====
-- What the terminal phase counts and decides.
use europa_neo.Prelude.{
  ℕ, zero, suc, ◌+◌, ◌≤◌, ◌≡◌, refl, sym, ◌∙◌, arith, at, List, [], ◌∷◌, All, All-at, Bool, true,
  false, ◌==◌, if◌then◌else◌, if-elim, ==→≡, Bool-cases, Option, some, none, inl, inr, for_range?,
  for_range?_inv, Returns, Returns-if, Returns-bind,
}
use europa_neo.Core.PlayerId.{PlayerId, eq_id}
use europa_neo.Engine.Types.{PlayerRegistry}
use europa_neo.Engine.Registry.{count, require_id}
use europa_neo.Engine.Registry.Lookup.{require_id-registered}
use europa_neo.Engine.Registry.Checks.{eq_id_refl, eq_id_sound}
use europa_neo.Engine.Terminal.{Totals, total, add_total, tally_cell}

-- Whether an owner byte stands for the player `id`.
abbrev pub is_id_of : PlayerId → Option PlayerId → Bool
is_id_of id none = false
is_id_of id (some k) = eq_id k id

-- The sum of `value` over the first `n` cells of which `id` is the owner.
abbrev pub held : PlayerRegistry → List ℕ → (ℕ → ℕ) → PlayerId → ℕ → ℕ
held r owners value id zero = 0
held r owners value id (suc j) =
    held r owners value id j + (if is_id_of id (require_id r (at owners j)) then value j else 0)

-- A key that differs from a second one is not the id that the second one is.
apart : (id j k : PlayerId) → eq_id j k ≡ false → eq_id j id ≡ true → eq_id k id ≡ false
apart id j k other h = elim (Bool-cases (eq_id k id)) [
  | inl same ↦
      (let ej = eq_id_sound j id h in
        let ek = eq_id_sound k id same in
        let both : eq_id j k ≡ true = rw (ej, ek) (eq_id_refl id) in absurd (cc))
  | inr differ ↦ differ
]

total-add_total :
    (id k : PlayerId) (v : ℕ) (m : Totals)
    → total id (add_total k v m) ≡ total id m + (if eq_id k id then v else 0)
unfolding total add_total
total-add_total id k v [] = ground arith
total-add_total id k v ((j, u) ∷ m) =
    if-elim
      (λ (n : Totals).
        total id n ≡ (if eq_id j id then u else total id m) + (if eq_id k id then v else 0))
      (eq_id j k) (λ same. let e = eq_id_sound j k same in rw e (ground arith))
      (λ other. ground (arith, total-add_total id k v m, apart id j k other))

module _ (r : PlayerRegistry) (owners : List ℕ) (value : ℕ → ℕ)
    (known : All (λ o. o ≤ count r) owners) where
  held_suc :
      (id : PlayerId) (j : ℕ)
      → held r owners value id (j + 1)
        ≡ held r owners value id j
          + (if is_id_of id (require_id r (at owners j)) then value j else 0)
  held_suc id j = let e : j + 1 ≡ suc j = omega arith in rw e refl

  tally_cell-held :
      (j : ℕ) (m : Totals)
      → ((id : PlayerId) → total id m ≡ held r owners value id j)
      → Returns
          (λ u. (id : PlayerId) → total id u ≡ held r owners value id (j + 1))
          (tally_cell r (at owners j) (value j) m)
  unfolding tally_cell
  tally_cell-held j m h =
      let P = λ (u : Totals). (id : PlayerId) → total id u ≡ held r owners value id (j + 1) in
      Returns-if P (at owners j == 0)
        (λ neutral. (
          m,
          refl,
          λ id.
              let e : is_id_of id (require_id r (at owners j)) ≡ false =
                rw (==→≡ (at owners j) 0 neutral) refl in
              h id ∙ sym (held_suc id j ∙ ground (arith, e)),
        ))
        (λ owned.
          Returns-bind (λ _. Unit {0}) P
            (require_id-registered r (at owners j) (ground arith)
              (All-at (λ o. o ≤ count r) owners j known (omega arith)))
            (λ k e _. (
              _,
              refl,
              λ id.
                  let known' : is_id_of id (require_id r (at owners j)) ≡ eq_id k id = rw e refl in
                  total-add_total id k (value j) m
                  ∙ sym (held_suc id j ∙ ground (arith, known', h id)),
            )))

  pub tally-held :
      (m : ℕ)
      → Returns
          (λ u. (id : PlayerId) → total id u ≡ held r owners value id m)
          (for_range? m 0 (λ i. tally_cell r (at owners i) (value i)) [])
  unfolding total
  tally-held m =
      for_range?_inv (λ j (u : Totals). (id : PlayerId) → total id u ≡ held r owners value id j) _ m
        0 m [] (omega arith) (λ j u _ _ h. tally_cell-held j u h) (λ id. refl)
