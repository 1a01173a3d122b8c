-- ===== src/Engine/Read/Laws.antt =====
-- The range query of read.ts.
use europa_neo.Prelude.{
  ℕ, ◌+◌, ◌^◌, ◌≤◌, ◌<◌, ◌≡◌, refl, arith, true, Memᴰ, pos, collect_sound, collect_complete,
}
use europa_neo.Core.Types.{Pos}
use europa_neo.Core.Rng.{to_int32}
use europa_neo.Engine.Types.{World}
use europa_neo.Engine.Read.{clamp_radius, cells_in_range}

-- On the board, and at most `r` columns and `r` rows away.
pub record InRange (w : World) (center : Pos) (r : ℕ) (p : Pos) : Type 0 where
  pub inside_x : p.0 < w.board.width
  pub inside_y : p.1 < w.board.height
  pub east_of : p.0 ≤ center.0 + r
  pub west_of : center.0 ≤ p.0 + r
  pub south_of : p.1 ≤ center.1 + r
  pub north_of : center.1 ≤ p.1 + r

pub clamp_radius-pos : (r : ℕ) → r < 2 ^ 31 → clamp_radius (pos r) ≡ r
unfolding to_int32
clamp_radius-pos r h = ground arith

module _ (w : World) (center : Pos) (r : ℕ) (small : r < 2 ^ 31) (p : Pos) where
  pub cells_in_range_sound : Memᴰ p (cells_in_range w center (pos r)) → InRange w center r p
  unfolding cells_in_range
  cells_in_range_sound m =
      let b = (collect_sound _ _ _ _ (λ _. true) p m).0 in
      let e = clamp_radius-pos r small in
      record {
        inside_x = omega (arith, b.right, b.left, e);
        inside_y = omega (arith, b.under, b.over, e);
        east_of = omega (arith, b.right, b.left, e);
        west_of = omega (arith, b.right, b.left, e);
        south_of = omega (arith, b.under, b.over, e);
        north_of = omega (arith, b.under, b.over, e);
      }

  pub cells_in_range_complete : InRange w center r p → Memᴰ p (cells_in_range w center (pos r))
  unfolding cells_in_range
  cells_in_range_complete h =
      let e = clamp_radius-pos r small in
      collect_complete _ _ _ _ (λ _. true) p
        (record {
          right = omega (arith, h.west_of, e);
          left = omega (arith, h.inside_x, h.east_of, h.west_of, e);
          under = omega (arith, h.north_of, e);
          over = omega (arith, h.inside_y, h.south_of, h.north_of, e);
        })
        refl
