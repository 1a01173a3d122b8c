-- ===== src/Prelude/Grid.antt =====
-- Nested counted loops over a block of cells, column by column within row by row.
use Prim.Native.Nat.{ℕ, zero, suc, ◌+◌, ◌≤◌, ◌<◌}
use mathlib.Core.Path.{◌≡◌, refl}
use mathlib.Core.Bool.{Bool, true}
use mathlib.Core.Logic.{◌⊎◌, inl, inr}
use mathlib.Core.List.{List, [], ◌∷◌, ◌++◌, Memᴰ}
use mathlib.Core.List.Memᴰ
use native.Mathlib.Omega.{arith}
use package.europa_neo.Prelude.Tests.{if◌then◌else◌, if-elim}
use package.europa_neo.Prelude.Loops.{for_range, for_range_inv}

-- `for (y from row, rows times) for (x from column, columns times)`.
unfoldable pub for_grid {ℓ} :
    {State : Type ℓ} (rows row columns column : ℕ) → (ℕ × ℕ → State → State) → State → State
for_grid rows row columns column body state =
    for_range rows row (λ y s. for_range columns column (λ x t. body (x, y) t) s) state

abbrev pub push_if {ℓ} : {A : Type ℓ} → (A → Bool) → A → List A → List A
push_if test a out = if test a then out ++ a ∷ [] else out

-- The cells of a block that pass a test.
unfoldable pub collect : (rows row columns column : ℕ) → (ℕ × ℕ → Bool) → List (ℕ × ℕ)
collect rows row columns column test = for_grid rows row columns column (push_if test) []

pub record InBlock (rows row columns column : ℕ) (p : ℕ × ℕ) : Type 0 where
  pub right : column ≤ p.0
  pub left : p.0 < column + columns
  pub under : row ≤ p.1
  pub over : p.1 < row + rows

-- What every round keeps holds at the end.
for_range-keeps {ℓ κ} :
    {S : Type ℓ} (P : S → Type κ) (body : ℕ → S → S) (n i : ℕ) (s : S)
    → ((k : ℕ) (t : S) → i ≤ k → k < i + n → P t → P (body k t))
    → P s
    → P (for_range n i body s)
for_range-keeps P body n i s keep first =
    for_range_inv (λ _ t. P t) body n i (i + n) s refl (λ k t lo hi p. keep k t lo hi p) first

-- What one round establishes, and every other keeps, holds at the end.
for_range-reaches {ℓ κ} :
    {S : Type ℓ} (P : S → Type κ) (body : ℕ → S → S) (n i k : ℕ) (s : S)
    → i ≤ k
    → k < i + n
    → ((t : S) → P (body k t))
    → ((j : ℕ) (t : S) → P t → P (body j t))
    → P (for_range n i body s)
unfolding for_range
for_range-reaches P body zero i k s lo hi here keep = absurd (omega arith)
for_range-reaches P body (suc n) i k s lo hi here keep = elim (starts_at lo) [
  | inl e ↦ for_range-keeps P body n (i + 1) (body i s) (λ j t _ _. keep j t) (rw e (here s))
  | inr lt ↦ for_range-reaches P body n (i + 1) k (body i s) lt (omega arith) here keep
]
  where
    starts_at : i ≤ k → (i ≡ k) ⊎ (i + 1 ≤ k)
    starts_at h = ground arith

for_range-cong {ℓ} :
    {S : Type ℓ} (body other : ℕ → S → S) (n i : ℕ) (s : S)
    → ((k : ℕ) (t : S) → i ≤ k → k < i + n → body k t ≡ other k t)
    → for_range n i body s ≡ for_range n i other s
unfolding for_range
for_range-cong body other zero i s same = refl
for_range-cong body other (suc n) i s same = rw (same i s (omega arith) (omega arith)) (
    for_range-cong body other n (i + 1) (other i s)
      (λ k t lo hi. same k t (omega arith) (omega arith)))

-- Bodies that agree on the block have the same result.
pub for_grid-cong {ℓ} :
    {S : Type ℓ} (rows row columns column : ℕ) (body other : ℕ × ℕ → S → S) (s : S)
    → ((p : ℕ × ℕ) (t : S) → InBlock rows row columns column p → body p t ≡ other p t)
    → for_grid rows row columns column body s ≡ for_grid rows row columns column other s
unfolding for_grid
for_grid-cong rows row columns column body other s same =
    for_range-cong _ _ rows row s (λ y t lo hi.
      for_range-cong _ _ columns column t (λ x u left right.
        same (x, y) u (record { right = left; left = right; under = lo; over = hi })))

module _ {ℓ κ} {S : Type ℓ} (P : S → Type κ) (rows row columns column : ℕ)
    (body : ℕ × ℕ → S → S) where
  pub for_grid-keeps :
      (s : S)
      → ((p : ℕ × ℕ) (t : S) → InBlock rows row columns column p → P t → P (body p t))
      → P s
      → P (for_grid rows row columns column body s)
  unfolding for_grid
  for_grid-keeps s keep first =
      for_range-keeps P _ rows row s
        (λ y t lo hi held.
          for_range-keeps P _ columns column t
            (λ x u left right kept.
              keep (x, y) u (record { right = left; left = right; under = lo; over = hi }) kept)
            held)
        first

  pub for_grid-reaches :
      (s : S) (p : ℕ × ℕ)
      → InBlock rows row columns column p
      → ((t : S) → P (body p t))
      → ((q : ℕ × ℕ) (t : S) → P t → P (body q t))
      → P (for_grid rows row columns column body s)
  unfolding for_grid
  for_grid-reaches s p b here keep =
      for_range-reaches P _ rows row p.1 s b.under b.over
        (λ t.
          for_range-reaches P _ columns column p.0 t b.right b.left here (λ x u. keep (x, p.1) u))
        (λ y t held. for_range-keeps P _ columns column t (λ x u _ _ kept. keep (x, y) u kept) held)

-- The collected cells are those of the block that pass the test.
module _ (rows row columns column : ℕ) (test : ℕ × ℕ → Bool) where
  pub collect_sound :
      (p : ℕ × ℕ)
      → Memᴰ p (collect rows row columns column test)
      → InBlock rows row columns column p × (test p ≡ true)
  unfolding collect
  collect_sound =
      for_grid-keeps
        (λ out. (p : ℕ × ℕ) → Memᴰ p out → InBlock rows row columns column p × (test p ≡ true)) rows
        row columns column (push_if test) []
        (λ q out b held.
          if-elim
            (λ after.
              (p : ℕ × ℕ) → Memᴰ p after → InBlock rows row columns column p × (test p ≡ true))
            (test q)
            (λ passed p m. elim (Memᴰ.append_cases out m) [
              | inl old ↦ held p old
              | inr new ↦ rw (Memᴰ.eq_of_singleton {a = p} {b = q} new) (b, passed)
            ])
            (λ _. held))
        (λ p m. absurd (Memᴰ.not-nil m))

  pub collect_complete :
      (p : ℕ × ℕ)
      → InBlock rows row columns column p
      → test p ≡ true
      → Memᴰ p (collect rows row columns column test)
  unfolding collect
  collect_complete p b passed =
      for_grid-reaches (λ out. Memᴰ p out) rows row columns column (push_if test) [] p b
        (λ out. rw passed (Memᴰ.append_right out (Memᴰ.head refl)))
        (λ q out held.
          if-elim (λ after. Memᴰ p after) (test q) (λ _. Memᴰ.append_left (q ∷ []) held)
            (λ _. held))
