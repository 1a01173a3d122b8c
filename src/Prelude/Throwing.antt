-- ===== src/Prelude/Throwing.antt =====
-- Calls that may throw: that a call returns, with what holds of its result.
use mathlib.Core.Path.{◌≡◌, refl, subst}
use mathlib.Core.Bool.{Bool, true, false}
use mathlib.Core.Option.{Option, none, some}
use package.europa_neo.Prelude.Tests.{if◌then◌else◌, ◌>>=◌}

-- `m` returns a result at which `P` holds.
abbrev pub Returns {ℓ κ} : {A : Type ℓ} → (A → Type κ) → Option A → Type (ℓ ⊔ κ)
Returns {A} P m = (a : A) × (m ≡ some a) × P a

pub Returns-if {ℓ κ} :
    {A : Type ℓ} (P : A → Type κ) (b : Bool) {x y : Option A}
    → (b ≡ true → Returns P x)
    → (b ≡ false → Returns P y)
    → Returns P (if b then x else y)
Returns-if P true t e = t refl
Returns-if P false t e = e refl

pub Returns-bind {ℓ κ μ ν} :
    {A : Type ℓ} {B : Type μ} (P : A → Type κ) (Q : B → Type ν) {m : Option A} {f : A → Option B}
    → Returns P m
    → ((a : A) → m ≡ some a → P a → Returns Q (f a))
    → Returns Q (m >>= f)
Returns-bind P Q r next = let rest = next r.0 r.1 r.2 in (rest.0, rw r.1 rest.1, rest.2)

-- `P` holds of what `m` returns, if it returns.
abbrev pub Whenever {ℓ κ} : {A : Type ℓ} → (A → Type κ) → Option A → Type (ℓ ⊔ κ)
Whenever {A} P m = (a : A) → m ≡ some a → P a

pub Whenever-some {ℓ κ} : {A : Type ℓ} (P : A → Type κ) (a : A) → P a → Whenever P (some a)
Whenever-some P a p b e = subst P (unwrap e) p
  where
    unwrap : some a ≡ some b → a ≡ b
    unwrap q = cc

pub Whenever-bind {ℓ κ μ} :
    {A : Type ℓ} {B : Type μ} (Q : B → Type κ) (m : Option A) {f : A → Option B}
    → ((a : A) → m ≡ some a → Whenever Q (f a))
    → Whenever Q (m >>= f)
Whenever-bind Q none next b e = absurd (cc)
Whenever-bind Q (some a) next b e = next a refl b e

pub Whenever-if {ℓ κ} :
    {A : Type ℓ} (P : A → Type κ) (b : Bool) {x y : Option A}
    → (b ≡ true → Whenever P x)
    → (b ≡ false → Whenever P y)
    → Whenever P (if b then x else y)
Whenever-if P true t e = t refl
Whenever-if P false t e = e refl
