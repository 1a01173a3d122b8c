-- ===== src/Engine/Pipes/Laws.antt =====
-- The pipe masks as sets of directions.
use europa_neo.Prelude.{
  ℕ, zero, suc, ◌<◌, ◌≡◌, refl, arith, Bool, true, false, not, ◌&&◌, ◌||◌, ◌==◌, Bool-cases, ==→≡,
  inl, inr,
}
use europa_neo.Core.Types.{Direction, north, east, south, west}
use europa_neo.Engine.Pipes.{has_pipe, add_pipe, remove_pipe}

abbrev pub same_direction : Direction → Direction → Bool
same_direction north north = true
same_direction north east = false
same_direction north south = false
same_direction north west = false
same_direction east north = false
same_direction east east = true
same_direction east south = false
same_direction east west = false
same_direction south north = false
same_direction south east = false
same_direction south south = true
same_direction south west = false
same_direction west north = false
same_direction west east = false
same_direction west south = false
same_direction west west = true

abbrev eqb_Bool : Bool → Bool → Bool
eqb_Bool true b = b
eqb_Bool false b = not b

eqb_Bool-sound : (a b : Bool) → eqb_Bool a b ≡ true → a ≡ b
eqb_Bool-sound true true h = refl
eqb_Bool-sound true false h = cc
eqb_Bool-sound false true h = cc
eqb_Bool-sound false false h = refl

abbrev all_directions : (Direction → Bool) → Bool
all_directions p = p north && (p east && (p south && p west))

all_directions-true :
    (p : Direction → Bool) → all_directions p ≡ true → (d : Direction) → p d ≡ true
all_directions-true p h north = ground arith
all_directions-true p h east = ground arith
all_directions-true p h south = ground arith
all_directions-true p h west = ground arith

abbrev all_below : ℕ → (ℕ → Bool) → Bool
all_below zero p = true
all_below (suc n) p = p n && all_below n p

all_below-true : (n : ℕ) (p : ℕ → Bool) (m : ℕ) → all_below n p ≡ true → m < n → p m ≡ true
all_below-true zero p m h lt = absurd (omega arith)
all_below-true (suc n) p m h lt = elim (Bool-cases (m == n)) [
  | inl last ↦ (let e = ==→≡ m n last in rw e (ground arith))
  | inr before ↦ all_below-true n p m (ground arith) (ground arith)
]

abbrev adds_right : ℕ → Direction → Direction → Bool
adds_right m d e = eqb_Bool (has_pipe (add_pipe m d) e) (same_direction d e || has_pipe m e)

abbrev removes_right : ℕ → Direction → Direction → Bool
removes_right m d e =
    eqb_Bool (has_pipe (remove_pipe m d) e) (not (same_direction d e) && has_pipe m e)

abbrev row_right : ℕ → Direction → Bool
row_right m d = all_directions (λ e. adds_right m d e && removes_right m d e)

table_right : all_below 16 (λ m. all_directions (row_right m)) ≡ true
unfolding has_pipe add_pipe remove_pipe
table_right = refl

-- For a mask of four bits, an added pipe is there and a removed one is not, and neither operation
-- changes the pipes of the other directions.
has_pipe-add_remove :
    (m : ℕ) (d e : Direction)
    → m < 16
    → (has_pipe (add_pipe m d) e ≡ (same_direction d e || has_pipe m e))
      × (has_pipe (remove_pipe m d) e ≡ (not (same_direction d e) && has_pipe m e))
has_pipe-add_remove m d e h =
    let all_rows = all_below-true 16 (λ m. all_directions (row_right m)) m table_right h in
    let row = all_directions-true (row_right m) all_rows d in
    let both = all_directions-true (λ e. adds_right m d e && removes_right m d e) row e in
    (eqb_Bool-sound _ _ (ground (arith, both)), eqb_Bool-sound _ _ (ground (arith, both)))
