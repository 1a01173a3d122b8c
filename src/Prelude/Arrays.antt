-- ===== src/Prelude/Arrays.antt =====
-- Typed arrays as lists of numbers: `Uint32Array` and `Uint8Array` truncate what is written, a read
-- out of range gives `undefined`, which the code turns into 0, and a write out of range is ignored.
use Prim.Native.Nat.{ℕ, zero, suc, ◌+◌, ◌-◌, ◌%◌, ◌^◌, ◌≤◌, ◌<◌}
use mathlib.Core.Path.{◌≡◌, refl, ap}
use mathlib.Core.Logic.{◌≢◌}
use mathlib.Core.List.{List, [], ◌∷◌}
use native.Mathlib.Omega.{arith}
use package.europa_neo.Prelude.Lists.{length, set, All}

-- `n >>> 0`, and the truncation of a write.
abbrev pub u32 : ℕ → ℕ
u32 n = n % 2 ^ 32

abbrev pub u8 : ℕ → ℕ
u8 n = n % 2 ^ 8

-- `(a - b) >>> 0`: two's complement, for operands below 2 ^ 32.
abbrev pub sub32 : ℕ → ℕ → ℕ
sub32 a b = (a + 2 ^ 32 - b) % 2 ^ 32

-- `xs[i] ?? 0`.
abbrev pub at : List ℕ → ℕ → ℕ
at [] i = 0
at (x ∷ xs) zero = x
at (x ∷ xs) (suc i) = at xs i

abbrev pub write32 : List ℕ → ℕ → ℕ → List ℕ
write32 xs i v = set xs i (u32 v)

abbrev pub write8 : List ℕ → ℕ → ℕ → List ℕ
write8 xs i v = set xs i (u8 v)

abbrev pub sum : List ℕ → ℕ
sum [] = 0
sum (x ∷ xs) = x + sum xs

pub at-set_self : (xs : List ℕ) (i v : ℕ) → i < length xs → at (set xs i v) i ≡ v
at-set_self [] i v h = elim h [ ]
at-set_self (x ∷ xs) zero v h = refl
at-set_self (x ∷ xs) (suc i) v h = at-set_self xs i v (omega arith)

pub at-set_ne : (xs : List ℕ) (i j v : ℕ) → i ≢ j → at (set xs i v) j ≡ at xs j
at-set_ne [] i j v h = refl
at-set_ne (x ∷ xs) zero zero v h = absurd (h refl)
at-set_ne (x ∷ xs) zero (suc j) v h = refl
at-set_ne (x ∷ xs) (suc i) zero v h = refl
at-set_ne (x ∷ xs) (suc i) (suc j) v h = at-set_ne xs i j v (λ e. h (ap suc e))

pub at_above : (xs : List ℕ) (i : ℕ) → length xs ≤ i → at xs i ≡ 0
at_above [] i h = refl
at_above (x ∷ xs) zero h = absurd (omega arith)
at_above (x ∷ xs) (suc i) h = at_above xs i (omega arith)

pub at-lt : (xs : List ℕ) (i : ℕ) → 0 < at xs i → i < length xs
at-lt [] i h = absurd (omega arith)
at-lt (x ∷ xs) zero h = omega arith
at-lt (x ∷ xs) (suc i) h = omega (arith, at-lt xs i h)

pub sum-set : (xs : List ℕ) (i v : ℕ) → i < length xs → sum (set xs i v) + at xs i ≡ sum xs + v
sum-set [] i v h = elim h [ ]
sum-set (x ∷ xs) zero v h = omega arith
sum-set (x ∷ xs) (suc i) v h = omega (arith, sum-set xs i v (omega arith))

-- A predicate of every element holds of every read, if it holds of 0.
pub All-at {κ} : (P : ℕ → Type κ) (xs : List ℕ) (i : ℕ) → All P xs → P 0 → P (at xs i)
All-at P [] i h z = z
All-at P (x ∷ xs) zero h z = h.0
All-at P (x ∷ xs) (suc i) h z = All-at P xs i h.1 z

-- Every position that holds troops has an owner.
abbrev pub Occupied : List ℕ → List ℕ → Type 0
Occupied [] os = Unit {0}
Occupied (c ∷ cs) [] = Unit {0}
Occupied (c ∷ cs) (o ∷ os) = (0 < c → 0 < o) × Occupied cs os

pub Occupied-at :
    (cs os : List ℕ) (i : ℕ) → length cs ≡ length os → Occupied cs os → 0 < at cs i → 0 < at os i
Occupied-at [] os i e h p = absurd (omega arith)
Occupied-at (c ∷ cs) [] i e h p = absurd (omega arith)
Occupied-at (c ∷ cs) (o ∷ os) zero e h p = h.0 p
Occupied-at (c ∷ cs) (o ∷ os) (suc i) e h p = Occupied-at cs os i (omega arith) h.1 p

pub Occupied-set :
    (cs os : List ℕ) (i c o : ℕ)
    → Occupied cs os
    → (0 < c → 0 < o)
    → Occupied (set cs i c) (set os i o)
Occupied-set [] os i c o h p = tt
Occupied-set (x ∷ cs) [] zero c o h p = tt
Occupied-set (x ∷ cs) [] (suc i) c o h p = tt
Occupied-set (x ∷ cs) (y ∷ os) zero c o h p = (p, h.1)
Occupied-set (x ∷ cs) (y ∷ os) (suc i) c o h p = (h.0, Occupied-set cs os i c o h.1 p)

-- A count may be lowered where an owner stands.
pub Occupied-set_le :
    (cs os : List ℕ) (i c : ℕ) → Occupied cs os → c ≤ at cs i → Occupied (set cs i c) os
Occupied-set_le [] os i c h p = tt
Occupied-set_le (x ∷ cs) [] zero c h p = tt
Occupied-set_le (x ∷ cs) [] (suc i) c h p = tt
Occupied-set_le (x ∷ cs) (y ∷ os) zero c h p = (λ q. h.0 (omega arith), h.1)
Occupied-set_le (x ∷ cs) (y ∷ os) (suc i) c h p = (h.0, Occupied-set_le cs os i c h.1 p)

-- Any count may stand where an owner does.
pub Occupied-set_owned :
    (cs os : List ℕ) (i c : ℕ) → Occupied cs os → 0 < at os i → Occupied (set cs i c) os
Occupied-set_owned [] os i c h p = tt
Occupied-set_owned (x ∷ cs) [] zero c h p = tt
Occupied-set_owned (x ∷ cs) [] (suc i) c h p = tt
Occupied-set_owned (x ∷ cs) (y ∷ os) zero c h p = (λ q. p, h.1)
Occupied-set_owned (x ∷ cs) (y ∷ os) (suc i) c h p = (h.0, Occupied-set_owned cs os i c h.1 p)
