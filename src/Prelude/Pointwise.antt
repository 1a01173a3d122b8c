-- ===== src/Prelude/Pointwise.antt =====
-- A loop over an array that writes at its own index only: below the index stands what the loop
-- computes, from it on what stood before.
use Prim.Native.Nat.{ℕ, ◌+◌, ◌≤◌, ◌<◌}
use mathlib.Core.Path.{◌≡◌, refl, ◌∙◌}
use mathlib.Core.List.{List}
use native.Mathlib.Omega.{arith}
use package.europa_neo.Prelude.Lists.{length, set, length-set}
use package.europa_neo.Prelude.Arrays.{at, at-set_self, at-set_ne}

pub record Upto (f : ℕ → ℕ) (before xs : List ℕ) (j : ℕ) : Type 0 where
  pub size : length xs ≡ length before
  pub done : (i : ℕ) → i < j → at xs i ≡ f i
  pub todo : (i : ℕ) → j ≤ i → at xs i ≡ at before i

pub Upto-start : {f : ℕ → ℕ} {before : List ℕ} → Upto f before before 0
Upto-start = record { size = refl; done = λ i h. absurd (omega arith); todo = λ i h. refl }

module _ {f : ℕ → ℕ} {before xs : List ℕ} {j : ℕ} where
  pub Upto-set :
      (v : ℕ)
      → j < length before
      → v ≡ f j
      → Upto f before xs j
      → Upto f before (set xs j v) (j + 1)
  Upto-set v h e u =
      let hit = at-set_self xs j v (omega (arith, u.size)) in
      record {
        size = length-set xs j v ∙ u.size;
        done = λ i lt. ground (arith, hit, at-set_ne xs j i v, u.done i);
        todo = λ i le. ground (arith, at-set_ne xs j i v, u.todo i);
      }

  pub Upto-keep : at before j ≡ f j → Upto f before xs j → Upto f before xs (j + 1)
  Upto-keep e u = record {
    size = u.size;
    done = λ i lt. ground (arith, u.done i, u.todo i);
    todo = λ i le. u.todo i (omega arith);
  }
