-- ===== src/Fog/Range.antt =====
-- packages/fog/src/range.ts: Chebyshev distance and disks. The arguments are whole numbers.
pub mod Laws
use europa_neo.Prelude.{
  ℕ, ◌+◌, ◌-◌, ltb, leb, ◌==◌, if◌then◌else◌, true, Option, none, some, List, collect, ◌||◌,
}
use europa_neo.Core.Types.{Pos}

-- `Math.abs(a - b)`.
abbrev abs_diff : ℕ → ℕ → ℕ
abs_diff a b = (a - b) + (b - a)

unfoldable pub chebyshev_distance : Pos → Pos → ℕ
chebyshev_distance p q =
    let dx = abs_diff q.0 p.0 in let dy = abs_diff q.1 p.1 in if ltb dy dx then dx else dy

-- The last column (or row) of the clipped sweep, `raw >= bound ? bound - 1 : raw`.
abbrev pub clip : ℕ → ℕ → ℕ
clip bound raw = if leb bound raw then bound - 1 else raw

-- A board without cells is refused.
unfoldable pub chebyshev_disk : Pos → ℕ → (width height : ℕ) → Option (List Pos)
chebyshev_disk center r width height =
    if width == 0 || height == 0
    then none
    else some (
        collect (clip height (center.1 + r) + 1 - (center.1 - r)) (center.1 - r)
          (clip width (center.0 + r) + 1 - (center.0 - r)) (center.0 - r) (λ _. true))
