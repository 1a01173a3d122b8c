-- ===== src/Matchmaking/OrderedMap.antt =====
-- JavaScript's `Map`: its entries in the order in which their keys were first added.
pub mod Laws
use europa_neo.Prelude.{
  ℕ, Bool, true, if◌then◌else◌, Option, none, some, List, [], ◌∷◌, length, ◌≡◌,
}

-- `===` on the keys decides equality.
pub record IsEquality {ℓ} {K : Type ℓ} (eq : K → K → Bool) : Type ℓ where
  pub sound : (a b : K) → eq a b ≡ true → a ≡ b
  pub reflexive : (a : K) → eq a a ≡ true

abbrev pub OrderedMap {ℓ κ} : Type ℓ → Type κ → Type (ℓ ⊔ κ)
OrderedMap K V = List (K × V)

module _ {ℓ κ} {K : Type ℓ} {V : Type κ} (eq : K → K → Bool) where
  unfoldable pub get : OrderedMap K V → K → Option V
  get [] k = none
  get (e ∷ m) k = let rest = get m k in if eq e.0 k then some e.1 else rest

  -- The value of a key that is there is replaced where it stands; a new key comes last.
  unfoldable pub put : OrderedMap K V → K → V → OrderedMap K V
  put [] k v = (k, v) ∷ []
  put (e ∷ m) k v = let rest = put m k v in if eq e.0 k then (e.0, v) ∷ m else e ∷ rest

  unfoldable pub delete : OrderedMap K V → K → OrderedMap K V
  delete [] k = []
  delete (e ∷ m) k = let rest = delete m k in if eq e.0 k then m else e ∷ rest

module _ {ℓ κ} {K : Type ℓ} {V : Type κ} where
  abbrev pub values : OrderedMap K V → List V
  values [] = []
  values (e ∷ m) = e.1 ∷ values m

  abbrev pub keys : OrderedMap K V → List K
  keys [] = []
  keys (e ∷ m) = e.0 ∷ keys m

  abbrev pub size : OrderedMap K V → ℕ
  size m = length m
