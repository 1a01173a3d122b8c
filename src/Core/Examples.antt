-- ===== src/Core/Examples.antt =====
-- Calls of the generator.
use europa_neo.Prelude.{ℕ, ◌-◌, ◌^◌, ◌≡◌, refl, List, [], ◌∷◌, negsuc}
use europa_neo.Core.Rng.{to_int32, rng_next}

-- The state from which a call returns the least number.
abbrev negative_state : List ℕ
negative_state = 0 ∷ 0 ∷ 0 ∷ (2 ^ 31 - 1) ∷ []

negative_call : (rng_next negative_state).1 ≡ negsuc (2 ^ 31 - 1)
unfolding rng_next to_int32
negative_call = refl
