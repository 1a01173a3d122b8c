-- ===== src/Fog/Range/Laws.antt =====
-- The disks of range.ts, those of the engine and the conversion of a radius.
use europa_neo.Prelude.{
  ℕ, ◌+◌, ◌-◌, ◌^◌, ◌≤◌, ◌<◌, ◌≡◌, refl, arith, ◌↔◌, Memᴰ, some, ℤ, pos, negsuc, bits32, true,
  collect, ≢→==,
}
use europa_neo.Core.Types.{Pos}
use europa_neo.Core.Rng.{to_int32}
use europa_neo.Engine.Types.{World}
use europa_neo.Engine.Read.{span, cells_in_range}
use europa_neo.Engine.Read.Laws.{
  InRange, clamp_radius-pos, cells_in_range_sound, cells_in_range_complete,
}
use europa_neo.Fog.Range.{clip, chebyshev_distance, chebyshev_disk}
use europa_neo.Fog.VisibleSet.{to_signed32}

-- The radius of the fog is converted to 32 bits exactly as the engine's `r | 0`.
pub to_signed32-eq-to_int32 : (v : ℤ) → to_signed32 v ≡ to_int32 (bits32 v)
unfolding to_signed32 to_int32
to_signed32-eq-to_int32 (pos n) = ground arith
to_signed32-eq-to_int32 (negsuc n) = ground arith

near : (w : World) (c : Pos) (r : ℕ) (p : Pos) → InRange w c r p → chebyshev_distance c p ≤ r
unfolding chebyshev_distance
near w c r p h = ground arith

in_range :
    (w : World) (c : Pos) (r : ℕ) (p : Pos)
    → p.0 < w.board.width
    → p.1 < w.board.height
    → chebyshev_distance c p ≤ r
    → InRange w c r p
unfolding chebyshev_distance
in_range w c r p hx hy h = ground arith

span-clip : (bound c r : ℕ) → 0 < bound → span bound c r ≡ clip bound (c + r) + 1 - (c - r)
span-clip bound c r h = ground arith

disk_of :
    (c : Pos) (r width height : ℕ)
    → 0 < width
    → 0 < height
    → chebyshev_disk c r width height
      ≡ some (
          collect
            (clip height (c.1 + r) + 1 - (c.1 - r))
            (c.1 - r)
            (clip width (c.0 + r) + 1 - (c.0 - r))
            (c.0 - r)
            (λ _. true))
unfolding chebyshev_disk
disk_of c r width height wide high =
    rw (≢→== width 0 (λ e. omega arith), ≢→== height 0 (λ e. omega arith)) refl

disk-eq-cells :
    (w : World) (c : Pos) (r : ℕ)
    → r < 2 ^ 31
    → 0 < w.board.width
    → 0 < w.board.height
    → chebyshev_disk c r w.board.width w.board.height ≡ some (cells_in_range w c (pos r))
unfolding cells_in_range
disk-eq-cells w c r small wide high =
    rw
      (
        clamp_radius-pos r small,
        span-clip w.board.height c.1 r high,
        span-clip w.board.width c.0 r wide,
      )
      (disk_of c r w.board.width w.board.height wide high)

-- On a board with cells, the disk is what the engine's range query gives: the cells of the board whose
-- Chebyshev distance from the center is at most the radius, for a radius below 2 ^ 31.
pub chebyshev_disk-eq-cells_in_range :
    (w : World) (c : Pos) (r : ℕ)
    → r < 2 ^ 31
    → 0 < w.board.width
    → 0 < w.board.height
    → (chebyshev_disk c r w.board.width w.board.height ≡ some (cells_in_range w c (pos r)))
      × ((p : Pos)
          → Memᴰ p (cells_in_range w c (pos r))
            ↔ ((p.0 < w.board.width) × (p.1 < w.board.height) × (chebyshev_distance c p ≤ r)))
chebyshev_disk-eq-cells_in_range w c r small wide high = (
  disk-eq-cells w c r small wide high,
  λ p. (
    λ m. let h = cells_in_range_sound w c r small p m in (h.inside_x, h.inside_y, near w c r p h),
    λ q. cells_in_range_complete w c r small p (in_range w c r p q.0 q.1 q.2),
  ),
)
