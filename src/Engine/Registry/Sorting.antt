-- ===== src/Engine/Registry/Sorting.antt =====
-- The stable sort behind `Array.prototype.sort`.
use europa_neo.Prelude.{ℤ, ◌≡◌, refl, List, [], ◌∷◌, All, if-elim, length, arith, suc}
use europa_neo.Engine.Registry.{insert_by, sort_by, is_positive}
use mathlib.Core.List.{Perm}
use mathlib.Core.List.Perm

module _ {ℓ} {A : Type ℓ} (cmp : A → A → ℤ) where
  pub All-insert_by {κ} :
      (P : A → Type κ) (x : A) (xs : List A) → P x → All P xs → All P (insert_by cmp x xs)
  unfolding insert_by
  All-insert_by P x [] p h = (p, tt)
  All-insert_by P x (y ∷ ys) p h =
      if-elim (All P) (is_positive (cmp x y)) (λ _. (h.0, All-insert_by P x ys p h.1)) (λ _. (p, h))

  pub All-sort_by {κ} : (P : A → Type κ) (xs : List A) → All P xs → All P (sort_by cmp xs)
  unfolding sort_by
  All-sort_by P [] h = tt
  All-sort_by P (x ∷ xs) h = All-insert_by P x (sort_by cmp xs) h.0 (All-sort_by P xs h.1)

  pub insert_by-perm : (x : A) (xs : List A) → Perm (insert_by cmp x xs) (x ∷ xs)
  unfolding insert_by
  insert_by-perm x [] = Perm.refl (x ∷ [])
  insert_by-perm x (y ∷ ys) =
      if-elim (λ zs. Perm zs (x ∷ y ∷ ys)) (is_positive (cmp x y))
        (λ _. Perm.trans (Perm.cons y (insert_by-perm x ys)) (Perm.swap x y ys))
        (λ _. Perm.refl (x ∷ y ∷ ys))

  -- Sorting loses and makes up nothing.
  pub sort_by-perm : (xs : List A) → Perm (sort_by cmp xs) xs
  unfolding sort_by
  sort_by-perm [] = Perm.refl []
  sort_by-perm (x ∷ xs) =
      Perm.trans (insert_by-perm x (sort_by cmp xs)) (Perm.cons x (sort_by-perm xs))

  length-insert_by : (x : A) (xs : List A) → length (insert_by cmp x xs) ≡ suc (length xs)
  unfolding insert_by
  length-insert_by x [] = refl
  length-insert_by x (y ∷ ys) =
      if-elim (λ (zs : List A). length zs ≡ suc (suc (length ys))) (is_positive (cmp x y))
        (λ _. omega (arith, length-insert_by x ys)) (λ _. refl)

  pub length-sort_by : (xs : List A) → length (sort_by cmp xs) ≡ length xs
  unfolding sort_by
  length-sort_by [] = refl
  length-sort_by (x ∷ xs) = omega (arith, length-insert_by x (sort_by cmp xs), length-sort_by xs)

  All-insert_by_inv {κ} :
      (P : A → Type κ) (x : A) (xs : List A) → All P (insert_by cmp x xs) → P x × All P xs
  unfolding insert_by
  All-insert_by_inv P x [] h = h
  All-insert_by_inv P x (y ∷ ys) h =
      if-elim (λ (zs : List A). All P zs → P x × All P (y ∷ ys)) (is_positive (cmp x y))
        (λ _ k. let r = All-insert_by_inv P x ys k.1 in (r.0, (k.0, r.1))) (λ _ k. k) h

  pub All-sort_by_inv {κ} : (P : A → Type κ) (xs : List A) → All P (sort_by cmp xs) → All P xs
  unfolding sort_by
  All-sort_by_inv P [] h = tt
  All-sort_by_inv P (x ∷ xs) h =
      let r = All-insert_by_inv P x (sort_by cmp xs) h in (r.0, All-sort_by_inv P xs r.1)
