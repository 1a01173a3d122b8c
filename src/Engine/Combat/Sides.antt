-- ===== src/Engine/Combat/Sides.antt =====
-- The sides at a cell, and the one that prevails among three or more.
use europa_neo.Prelude.{
  ℕ, ◌≤◌, ◌<◌, ◌≡◌, ◌⊎◌, refl, arith, at, List, [], ◌∷◌, All, ltb, ◌==◌, ◌||◌, ◌&&◌, if-elim, inl,
  inr, Memᴰ,
}
use mathlib.Core.List.Memᴰ
use native.Mathlib.Nat.{le_refl}
use europa_neo.Engine.Registry.Sorting.{All-sort_by}
use europa_neo.Engine.Combat.{
  Force, Field, slot, push_force, committed_players, add_garrison, participants,
  sorted_participants, dominant, better,
}
use europa_neo.Engine.Flow.Transfer.{CountsKnown}

-- A registered player's side.
abbrev pub IsKnown : ℕ → Force → Type 0
IsKnown k p = (0 < p.owner) × (p.owner ≤ k)

module _ (k : ℕ) where
  push_force-IsKnown :
      (owner count : ℕ) (rest : List Force)
      → (0 < count → (0 < owner) × (owner ≤ k))
      → All (IsKnown k) rest
      → All (IsKnown k) (push_force owner count rest)
  push_force-IsKnown owner count rest h r =
      if-elim (All (IsKnown k)) (ltb 0 count) (λ some_flow. (h (ground arith), r)) (λ no_flow. r)

  slot_known :
      {n : ℕ} (f : Field) (idx p : ℕ)
      → CountsKnown n k f.committed
      → idx < n
      → 0 < p
      → p ≤ 4
      → 0 < slot f idx p
      → (0 < p) × (p ≤ k)
  slot_known f idx p c h p0 p4 pos_flow = ground (arith, c idx p)

  committed_players-IsKnown :
      {n : ℕ} (f : Field) (idx : ℕ)
      → CountsKnown n k f.committed
      → idx < n
      → All (IsKnown k) (committed_players f idx)
  unfolding committed_players
  committed_players-IsKnown f idx c h =
      push_force-IsKnown 1 (slot f idx 1) _ (slot_known f idx 1 c h (omega arith) (omega arith)) (
        push_force-IsKnown 2 (slot f idx 2) _ (slot_known f idx 2 c h (omega arith) (omega arith)) (
          push_force-IsKnown 3 (slot f idx 3) _ (slot_known f idx 3 c h (omega arith) (omega arith))
            (push_force-IsKnown 4 (slot f idx 4) []
              (slot_known f idx 4 c h (omega arith) (omega arith)) tt)))

  add_garrison-IsKnown :
      (owner total : ℕ) (ps : List Force)
      → 0 < owner
      → owner ≤ k
      → All (IsKnown k) ps
      → All (IsKnown k) (add_garrison owner total ps)
  unfolding add_garrison
  add_garrison-IsKnown owner total [] p0 pk h = ((p0, pk), tt)
  add_garrison-IsKnown owner total (p ∷ ps) p0 pk h =
      if-elim (All (IsKnown k)) (p.owner == owner) (λ _. (h.0, h.1))
        (λ _. (h.0, add_garrison-IsKnown owner total ps p0 pk h.1))

  pub sorted_participants-IsKnown :
      {n : ℕ} (f : Field) (idx : ℕ)
      → CountsKnown n k f.committed
      → at f.pre_owners idx ≤ k
      → idx < n
      → All (IsKnown k) (sorted_participants f idx)
  unfolding sorted_participants participants
  sorted_participants-IsKnown f idx c g h = All-sort_by _ (IsKnown k) (participants f idx) (
      if-elim (All (IsKnown k)) (at f.pre_owners idx == 0)
        (λ _. committed_players-IsKnown f idx c h)
        (λ held.
          add_garrison-IsKnown (at f.pre_owners idx) _ _ (ground arith) g
            (committed_players-IsKnown f idx c h)))

pub dominant-IsKnown :
    (k : ℕ) (best : Force) (ps : List Force)
    → IsKnown k best
    → All (IsKnown k) ps
    → IsKnown k (dominant best ps)
unfolding dominant
dominant-IsKnown k best [] b h = b
dominant-IsKnown k best (p ∷ ps) b h =
    dominant-IsKnown k (better best p) ps
      (if-elim (IsKnown k)
        (ltb best.count p.count || (p.count == best.count && ltb p.owner best.owner)) (λ _. h.0)
        (λ _. b))
      h.1

-- `q` is beaten by `p`, or is `p`'s equal in count with no lower owner.
abbrev pub IsBeatenBy : Force → Force → Type 0
IsBeatenBy p q = (q.count < p.count) ⊎ (q.count ≡ p.count) × (p.owner ≤ q.owner)

IsBeatenBy-trans : (a b c : Force) → IsBeatenBy a b → IsBeatenBy b c → IsBeatenBy a c
IsBeatenBy-trans a b c h k = ground arith

better-IsBeatenBy :
    (best p : Force) → IsBeatenBy (better best p) best × IsBeatenBy (better best p) p
better-IsBeatenBy best p =
    if-elim (λ b. IsBeatenBy b best × IsBeatenBy b p)
      (ltb best.count p.count || (p.count == best.count && ltb p.owner best.owner))
      (λ wins. (ground arith, inr (refl, le_refl p.owner)))
      (λ loses. (inr (refl, le_refl best.owner), ground arith))

dominant-All : (best : Force) (ps : List Force) → All (IsBeatenBy (dominant best ps)) (best ∷ ps)
unfolding dominant
dominant-All best [] = (inr (refl, le_refl best.owner), tt)
dominant-All best (p ∷ ps) =
    let rest = dominant-All (better best p) ps in
    let pair = better-IsBeatenBy best p in
    (
      IsBeatenBy-trans (dominant (better best p) ps) (better best p) best rest.0 pair.0,
      (IsBeatenBy-trans (dominant (better best p) ps) (better best p) p rest.0 pair.1, rest.1),
    )

better-Memᴰ : (best p : Force) (ps : List Force) → Memᴰ (better best p) (best ∷ p ∷ ps)
better-Memᴰ best p ps =
    if-elim (λ b. Memᴰ b (best ∷ p ∷ ps))
      (ltb best.count p.count || (p.count == best.count && ltb p.owner best.owner))
      (λ wins. Memᴰ.tail (Memᴰ.head refl)) (λ loses. Memᴰ.head refl)

dominant-Memᴰ : (best : Force) (ps : List Force) → Memᴰ (dominant best ps) (best ∷ ps)
unfolding dominant
dominant-Memᴰ best [] = Memᴰ.head refl
dominant-Memᴰ best (p ∷ ps) = elim (Memᴰ.cases_cons (dominant-Memᴰ (better best p) ps)) [
  | inl first ↦ rw first (better-Memᴰ best p ps)
  | inr later ↦ Memᴰ.tail (Memᴰ.tail later)
]

-- The side that keeps a cell of three or more is one of the sides, and has the largest total and, among
-- equals, the lowest owner: it beats the side that the loop starts with and every later one.
pub dominant-IsBeatenBy :
    (best : Force) (ps : List Force)
    → Memᴰ (dominant best ps) (best ∷ ps) × All (IsBeatenBy (dominant best ps)) (best ∷ ps)
dominant-IsBeatenBy best ps = (dominant-Memᴰ best ps, dominant-All best ps)
