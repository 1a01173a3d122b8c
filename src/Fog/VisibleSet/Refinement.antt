-- ===== src/Fog/VisibleSet/Refinement.antt =====
-- The visible set against the horizon.
use europa_neo.Prelude.{
  ℕ, zero, suc, ◌+◌, ◌*◌, ◌^◌, ◌<◌, ◌≡◌, refl, arith, ◌↔◌, ≢→==, ≡→==, ==→≡, Option-cases, inl, inr,
  sym, ◌∙◌, Option, some, List, Memᴰ, replicate, length-replicate, at, collect_sound,
  collect_complete, Returns, ℤ,
}
use europa_neo.Core.Types.{Pos, index}
use europa_neo.Core.PlayerId.{PlayerId}
use europa_neo.Engine.Types.{World}
use europa_neo.Engine.Registry.{index_of_id}
use europa_neo.Engine.Flow.Transfer.{index-lt}
use europa_neo.Fog.Mask.{FogMask, create_mask}
use europa_neo.Fog.Mask.Laws.{is_cell_marked-coord}
use europa_neo.Fog.VisibleSet.{
  resolve_radius, resolve_player_owner_byte, mark_horizons, collect_marks, see, compute_visible_set,
}
use europa_neo.Fog.VisibleSet.Horizon.{
  length-mark_horizons, Sees, MarksSeen, resolve_radius-lt, mark_horizons-MarksSeen,
  mark_horizons-marks,
}

at-replicate : (n i : ℕ) → at (replicate n 0) i ≡ 0
at-replicate zero i = refl
at-replicate (suc n) zero = refl
at-replicate (suc n) (suc i) = at-replicate n i

some_inj : {i j : ℕ} → some i ≡ some j → i ≡ j
some_inj e = cc

module _ (w : World) (wide : 0 < w.board.width) (high : 0 < w.board.height) where
  see-Sees :
      (owner radius : ℕ)
      → radius < 2 ^ 31
      → Returns (λ cells. (p : Pos) → Memᴰ p cells ↔ Sees w owner radius p) (see w owner radius)
  unfolding see create_mask collect_marks
  see-Sees owner radius small =
      rw (≢→== w.board.width 0 (λ e. omega arith), ≢→== w.board.height 0 (λ e. omega arith))
        (
          collect_marks w marked,
          refl,
          λ p. (
            λ m.
                let (b, e) = collect_sound _ _ _ _ _ p m in
                let inside : p.0 < w.board.width = omega (arith, b.left) in
                mark_horizons-MarksSeen w owner radius blank small none_marked p inside (
                  ==→≡ _ _
                    (sym (is_cell_marked-coord marked p inside (omega (arith, b.over))) ∙ e)),
            λ s.
                collect_complete _ _ _ _ _ p
                  (record {
                    right = omega arith;
                    left = omega (arith, s.near.inside_x);
                    under = omega arith;
                    over = omega (arith, s.near.inside_y);
                  })
                  (is_cell_marked-coord marked p s.near.inside_x s.near.inside_y
                    ∙ ≡→== _ _ (
                        mark_horizons-marks w owner radius blank p small s (
                          omega (
                            arith,
                            index-lt w.board.width w.board.height p s.near.inside_x s.near.inside_y,
                            length-mark_horizons w owner radius blank,
                            length-replicate {A = ℕ} (w.board.width * w.board.height) 0,
                          )))),
          ),
        )
    where
      blank : List ℕ
      blank = replicate (w.board.width * w.board.height) 0

      marked : FogMask
      marked = record {
        data_ = mark_horizons w owner radius blank;
        width = w.board.width;
        height = w.board.height;
      }

      none_marked : MarksSeen w owner radius blank
      none_marked q inside e =
          absurd
            (omega (arith, at-replicate (w.board.width * w.board.height) (index w.board.width q)))

  -- On a board with cells, the visible set is computed, and a cell is in it exactly if the player is
  -- registered and the cell lies within the radius, in columns and in rows, of a cell where the
  -- player has troops; the radius is the one given, or else the match's, at 32 signed bits.
  pub compute_visible_set-Sees :
      (player : PlayerId) (r : Option ℤ)
      → Returns
          (λ v.
            (p : Pos)
            → Memᴰ p v.visible_cells ↔ (
                (i : ℕ) × (index_of_id w.registry player ≡ some i)
                × Sees w (i + 1) (resolve_radius r w) p))
          (compute_visible_set w player r)
  unfolding compute_visible_set resolve_player_owner_byte
  compute_visible_set-Sees player r = elim (Option-cases (index_of_id w.registry player)) [
    | inl missing ↦
        rw (missing, resolve_player_owner_byte, compute_visible_set)
          (_, refl, λ p. (λ m. elim m [ ], λ s. absurd (cc)))
    | inr (i, found) ↦
        let (cells, e, law) = see-Sees (i + 1) (resolve_radius r w) (resolve_radius-lt r w) in
        rw (found, e, resolve_player_owner_byte, compute_visible_set)
          (_, refl, λ p. (λ m. (i, refl, (law p).0 m), λ s. (law p).1 (rw (some_inj s.1) s.2)))
  ]
