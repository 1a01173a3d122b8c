-- ===== src/Fog/Mask/Laws.antt =====
-- Masks as sets of cells.
use europa_neo.Prelude.{
  ℕ, ◌*◌, ◌<◌, ◌≤◌, ◌≡◌, refl, arith, List, false, ◌||◌, ◌==◌, none, some, at, set, length, Upto,
  Upto-start, Upto-set, for_range, for_range_inv, All, All-at, ap, Returns, ≡→==, Option-cases, inl,
  inr,
}
use europa_neo.Core.Types.{Pos, Coord, coord, index, in_bounds}
use europa_neo.Engine.Flow.Transfer.{index-lt}
use europa_neo.Fog.Mask.{FogMask, mask_visible, is_cell_marked, union_byte, union_masks}

pub in_bounds-coord : (w h : ℕ) (p : Pos) → p.0 < w → p.1 < h → in_bounds w h (coord p) ≡ some p
unfolding in_bounds
in_bounds-coord w h p hx hy = ground arith

pub is_cell_marked-coord :
    (mask : FogMask) (p : Pos)
    → p.0 < mask.width
    → p.1 < mask.height
    → is_cell_marked mask (coord p) ≡ (at mask.data_ (index mask.width p) == mask_visible)
unfolding is_cell_marked
is_cell_marked-coord mask p hx hy =
    rw (in_bounds-coord mask.width mask.height p hx hy, is_cell_marked) refl

-- The bytes of a mask are 0 or 1.
abbrev pub IsMask : FogMask → Type 0
IsMask mask = (length mask.data_ ≡ mask.width * mask.height) × All (λ b. b ≤ 1) mask.data_

union_bytes :
    (xs ys : List ℕ)
    → Upto
        (λ i. union_byte (at xs i) (at ys i))
        xs
        (for_range (length xs) 0 (λ i data_. set data_ i (union_byte (at data_ i) (at ys i))) xs)
        (length xs)
union_bytes xs ys =
    for_range_inv (λ j t. Upto (λ i. union_byte (at xs i) (at ys i)) xs t j) _ (length xs) 0
      (length xs) xs (omega arith)
      (λ k t lo hi u.
        Upto-set _ hi (ap (λ (a : ℕ). union_byte a (at ys k)) (u.todo k (omega arith))) u)
      Upto-start

in_bounds-lt : (w h : ℕ) (c : Coord) (p : Pos) → in_bounds w h c ≡ some p → (p.0 < w) × (p.1 < h)
unfolding in_bounds
in_bounds-lt w h c p e = ground arith

union_byte-marked : (a b : ℕ) → a ≤ 1 → b ≤ 1 → (union_byte a b == 1) ≡ (a == 1 || b == 1)
union_byte-marked a b ha hb = ground arith

marked_of :
    (mask : FogMask) (c : Coord) (p : Pos)
    → in_bounds mask.width mask.height c ≡ some p
    → is_cell_marked mask c ≡ (at mask.data_ (index mask.width p) == mask_visible)
unfolding is_cell_marked
marked_of mask c p e = rw (e, is_cell_marked) refl

unmarked_of :
    (mask : FogMask) (c : Coord)
    → in_bounds mask.width mask.height c ≡ none
    → is_cell_marked mask c ≡ false
unfolding is_cell_marked
unmarked_of mask c e = rw (e, is_cell_marked) refl

-- The union of two masks of the same size is defined, and marks the cells that one of them marks.
pub union_masks-Marks :
    (t s : FogMask)
    → IsMask t
    → IsMask s
    → t.width ≡ s.width
    → t.height ≡ s.height
    → Returns
        (λ u. (c : Coord) → is_cell_marked u c ≡ (is_cell_marked t c || is_cell_marked s c))
        (union_masks t s)
unfolding union_masks
union_masks-Marks t s ht hs ew eh =
    rw (≡→== t.width s.width ew, ≡→== t.height s.height eh)
      (
        both,
        refl,
        λ c. elim (Option-cases (in_bounds t.width t.height c)) [
          | inl off ↦
              rw
                (unmarked_of both c off, unmarked_of t c off, unmarked_of s c (rw (← ew, ← eh) off))
                refl
          | inr (p, on) ↦
              let (hx, hy) = in_bounds-lt t.width t.height c p on in
              let inside = index-lt t.width t.height p hx hy in
              rw
                (
                  marked_of both c p on,
                  marked_of t c p on,
                  marked_of s c p (rw (← ew, ← eh) on),
                  ← ew,
                  (union_bytes t.data_ s.data_).done (index t.width p) (omega (arith, ht.0)),
                )
                (union_byte-marked _ _ (All-at (λ b. b ≤ 1) t.data_ _ ht.1 (omega arith))
                  (All-at (λ b. b ≤ 1) s.data_ _ hs.1 (omega arith)))
        ],
      )
  where
    both : FogMask
    both = record t {
      data_ =
          for_range (length t.data_) 0
            (λ i data_. set data_ i (union_byte (at data_ i) (at s.data_ i))) t.data_;
    }
