-- ===== src/Prelude/Subset.antt =====
-- Lists without repetitions inside one another.
use Prim.Native.Nat.{suc, ◌≤◌}
use mathlib.Core.Path.{◌≡◌, refl, sym, ◌∙◌, ap}
use mathlib.Core.Logic.{◌⊎◌, inl, inr}
use mathlib.Core.List.{List, [], ◌∷◌, Memᴰ}
use mathlib.Core.List.Memᴰ
use native.Mathlib.Omega.{arith}
use package.europa_neo.Prelude.Lists.{length}

module _ {ℓ} {A : Type ℓ} where
  abbrev pub Distinct : List A → Type ℓ
  Distinct [] = Unit
  Distinct (x ∷ xs) = (Memᴰ x xs → ⊥) × Distinct xs

  abbrev pub Within : List A → List A → Type ℓ
  Within xs ys = (a : A) → Memᴰ a xs → Memᴰ a ys

  -- The rest of a list without one occurrence.
  take_out :
      {a : A} (ys : List A)
      → Memᴰ a ys
      → (rest : List A) × (length ys ≡ suc (length rest))
        × ((b : A) → Memᴰ b ys → (b ≡ a) ⊎ Memᴰ b rest)
  take_out [] m = elim m [ ]
  take_out (y ∷ ys) (Memᴰ.head e) = (
    ys,
    refl,
    λ b m. elim (Memᴰ.cases_cons m) [ inl first ↦ inl (first ∙ sym e) | inr later ↦ inr later ],
  )
  take_out {a} (y ∷ ys) (Memᴰ.tail i) =
      let (rest, size, split) = take_out ys i in
      (
        y ∷ rest,
        ap suc size,
        λ b m. elim (Memᴰ.cases_cons m) [
          | inl first ↦ inr (Memᴰ.head first)
          | inr later ↦ elim (split b later) [
            | inl same ↦ inl same
            | inr other ↦ inr (Memᴰ.tail other)
          ]
        ],
      )

  pub length-Within-le : (xs ys : List A) → Distinct xs → Within xs ys → length xs ≤ length ys
  length-Within-le [] ys d w = omega arith
  length-Within-le (x ∷ xs) ys d w =
      let (rest, size, split) = take_out ys (w x (Memᴰ.head refl)) in
      let fewer = length-Within-le xs rest d.1 (λ a m. elim (split a (w a (Memᴰ.tail m))) [
        | inl same ↦ absurd (d.0 (Memᴰ.cast (sym same) m))
        | inr other ↦ other
      ]) in
      omega (arith, size)
