-- ===== src/Fog/Mask.antt =====
-- packages/fog/src/mask.ts: a byte for each cell of the board.
pub mod Laws
use europa_neo.Prelude.{
  ℕ, zero, suc, ◌+◌, ◌*◌, ltb, ◌==◌, if◌then◌else◌, Bool, not, ◌&&◌, ◌||◌, false, Option, none,
  some, List, at, set, length, replicate, for_range,
}
use europa_neo.Core.Types.{Coord, Pos, index, in_bounds}

pub record FogMask : Type 0 where
  pub data_ : List ℕ
  pub width : ℕ
  pub height : ℕ

abbrev pub mask_visible : ℕ
mask_visible = 1

-- The dimensions are whole numbers; those that are not positive are refused.
unfoldable pub create_mask : (width height : ℕ) → Option FogMask
create_mask width height =
    if width == 0 || height == 0
    then none
    else some (record { data_ = replicate (width * height) 0; width = width; height = height })

-- The coordinates are whole numbers or are refused with those out of bounds.
unfoldable pub mark_visible : FogMask → Coord → FogMask
mark_visible mask c = elim (in_bounds mask.width mask.height c) [
  | none ↦ mask
  | some p ↦ record mask { data_ = set mask.data_ (index mask.width p) mask_visible }
]

unfoldable pub is_cell_marked : FogMask → Coord → Bool
is_cell_marked mask c = elim (in_bounds mask.width mask.height c) [
  | none ↦ false
  | some p ↦ at mask.data_ (index mask.width p) == mask_visible
]

abbrev pub union_byte : ℕ → ℕ → ℕ
union_byte a b = if ltb 0 (a + b) then mask_visible else 0

-- The loop over the target's cells; `none` is the thrown error.
unfoldable pub union_masks : FogMask → FogMask → Option FogMask
union_masks target source =
    if not (target.width == source.width) || not (target.height == source.height)
    then none
    else some (record target {
      data_ =
          for_range (length target.data_) 0
            (λ i data_. set data_ i (union_byte (at data_ i) (at source.data_ i))) target.data_;
    })
