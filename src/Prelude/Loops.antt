-- ===== src/Prelude/Loops.antt =====
-- Counted loops: `for (let i = start; i < start + n; i++)`, plain and with a body that may throw.
use Prim.Native.Nat.{ℕ, zero, suc, ◌+◌, ◌≤◌, ◌<◌}
use mathlib.Core.Path.{◌≡◌, refl, subst}
use mathlib.Core.Option.{Option, some}
use native.Mathlib.Omega.{arith}
use package.europa_neo.Prelude.Tests.{◌>>=◌}

-- The rounds have the indices from `first` on.
unfoldable pub for_range {ℓ} :
    {State : Type ℓ} (rounds first : ℕ) → (ℕ → State → State) → State → State
for_range zero first round state = state
for_range (suc rounds) first round state = for_range rounds (first + 1) round (round first state)

unfoldable pub for_range? {ℓ} :
    {State : Type ℓ} (rounds first : ℕ) → (ℕ → State → Option State) → State → Option State
for_range? zero first round state = some state
for_range? (suc rounds) first round state =
    round first state >>= for_range? rounds (first + 1) round

-- The invariant rule: what holds at the start and is kept by each round below `j` holds at `j`.
pub for_range_inv {ℓ κ} :
    {S : Type ℓ} (P : ℕ → S → Type κ) (body : ℕ → S → S) (n i j : ℕ) (s : S)
    → i + n ≡ j
    → ((k : ℕ) (t : S) → i ≤ k → k < j → P k t → P (k + 1) (body k t))
    → P i s
    → P j (for_range n i body s)
unfolding for_range
for_range_inv P body zero i j s total keep first = subst (λ (k : ℕ). P k s) (omega arith) first
for_range_inv P body (suc n) i j s total keep first =
    let second = keep i s (omega arith) (omega arith) first in
    for_range_inv P body n (i + 1) j (body i s) (omega arith)
      (λ k t lo hi p. keep k t (omega arith) hi p) second

-- The same for a body that may throw: it does not throw, and the invariant holds at the end.
pub for_range?_inv {ℓ κ} :
    {S : Type ℓ} (P : ℕ → S → Type κ) (body : ℕ → S → Option S) (n i j : ℕ) (s : S)
    → i + n ≡ j
    → ((k : ℕ) (t : S) → i ≤ k → k < j → P k t → (u : S) × (body k t ≡ some u) × P (k + 1) u)
    → P i s
    → (u : S) × (for_range? n i body s ≡ some u) × P j u
unfolding for_range?
for_range?_inv P body zero i j s total keep first =
    (s, refl, subst (λ (k : ℕ). P k s) (omega arith) first)
for_range?_inv P body (suc n) i j s total keep first =
    let (u, eu, pu) = keep i s (omega arith) (omega arith) first in
    let rest =
      for_range?_inv P body n (i + 1) j u (omega arith) (λ k t lo hi p. keep k t (omega arith) hi p)
        pu in
    (rest.0, rw eu rest.1, rest.2)
