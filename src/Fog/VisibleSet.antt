-- ===== src/Fog/VisibleSet.antt =====
-- packages/fog/src/visibleSet.ts: the cells within the horizon of a player's occupied cells.
pub mod Horizon
pub mod Refinement
use europa_neo.Prelude.{
  ℕ, suc, ◌+◌, ◌-◌, ◌*◌, ◌%◌, ◌^◌, ltb, leb, ◌==◌, if◌then◌else◌, Bool, ◌&&◌, Option, none, some,
  ◌>>=◌, List, [], ◌∷◌, at, set, ℤ, pos, negsuc, pos_part, ◌+ℤ◌, sub_ℕ, for_grid, collect,
}
use europa_neo.Core.Types.{Pos, coord, index}
use europa_neo.Core.PlayerId.{PlayerId}
use europa_neo.Engine.Types.{World}
use europa_neo.Engine.Registry.{index_of_id}
use europa_neo.Engine.Read.{cells_in_range}
use europa_neo.Fog.Mask.{FogMask, mask_visible, create_mask, is_cell_marked}

pub record VisibleSet : Type 0 where
  pub player : PlayerId
  pub tick : ℕ
  pub visible_cells : List Pos

-- The remainder of JavaScript has the sign of the dividend.
abbrev rem : ℤ → ℕ → ℤ
rem (pos n) m = pos (n % m)
rem (negsuc n) m = sub_ℕ 0 (suc n % m)

unfoldable pub to_signed32 : ℤ → ℤ
to_signed32 value =
    let unsigned = pos_part (rem value (2 ^ 32) +ℤ pos (2 ^ 32)) % 2 ^ 32 in
    if leb (2 ^ 31) unsigned then sub_ℕ unsigned (2 ^ 32) else pos unsigned

-- The radius that the caller gives, if it gives one, else that of the match.
abbrev raw_radius : Option ℤ → World → ℤ
raw_radius none w = pos w.config.visibility_radius
raw_radius (some r) w = r

unfoldable pub resolve_radius : Option ℤ → World → ℕ
unfolding to_signed32
resolve_radius r w = pos_part (to_signed32 (raw_radius r w))

unfoldable pub resolve_player_owner_byte : World → PlayerId → Option ℕ
resolve_player_owner_byte w player = index_of_id w.registry player >>= λ i. some (i + 1)

-- The two guards of the first pass.
unfoldable pub is_viewer : World → ℕ → Pos → Bool
is_viewer w owner_byte p =
    let idx = index w.board.width p in
    at w.state.troop_owners idx == owner_byte && ltb 0 (at w.state.troop_counts idx)

abbrev pub mark_cells : ℕ → List Pos → List ℕ → List ℕ
mark_cells width [] data_ = data_
mark_cells width (c ∷ cs) data_ = mark_cells width cs (set data_ (index width c) mask_visible)

-- The first pass: the marks of every viewer.
unfoldable pub mark_horizons : World → ℕ → ℕ → List ℕ → List ℕ
mark_horizons w owner_byte radius = for_grid w.board.height 0 w.board.width 0 (λ p data_.
    if is_viewer w owner_byte p
    then mark_cells w.board.width (cells_in_range w p (pos radius)) data_
    else data_)

-- The second pass: the marked cells, row by row.
unfoldable pub collect_marks : World → FogMask → List Pos
collect_marks w mask = collect w.board.height 0 w.board.width 0 (λ p. is_cell_marked mask (coord p))

unfoldable pub see : World → ℕ → ℕ → Option (List Pos)
unfolding mark_horizons collect_marks
see w owner_byte radius = create_mask w.board.width w.board.height >>= λ mask.
    some (collect_marks w (record mask { data_ = mark_horizons w owner_byte radius mask.data_ }))

-- An id that is not registered sees nothing.
unfoldable pub compute_visible_set : World → PlayerId → Option ℤ → Option VisibleSet
unfolding see
compute_visible_set w player r = elim (resolve_player_owner_byte w player) [
  | none ↦ some (record { player = player; tick = w.tick; visible_cells = [] })
  | some owner_byte ↦ see w owner_byte (resolve_radius r w) >>= λ cells.
      some (record { player = player; tick = w.tick; visible_cells = cells })
]
