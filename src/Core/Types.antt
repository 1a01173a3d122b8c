-- ===== src/Core/Types.antt =====
-- packages/core/src/types.ts: coordinates, cells and the board.
use europa_neo.Prelude.{
  ℕ, ◌+◌, ◌*◌, ℤ, pos, negsuc, ◌+ℤ◌, pos_part, neg_part, sub_ℕ, Bool, true, false, ltb,
  if◌then◌else◌, Option, none, some, List,
}

pub data Direction : Type 0 where
  north east south west : Direction

pub data Terrain : Type 0 where
  land water : Terrain

abbrev pub is_land : Terrain → Bool
is_land land = true
is_land water = false

-- A JavaScript number that a caller sends: an integer, or one for which `Number.isInteger` fails (a
-- fraction, an infinity or NaN).
pub data Num : Type 0 where
  int : ℤ → Num
  other : Num

pub record Coord : Type 0 where
  pub x : Num
  pub y : Num

pub record Cell : Type 0 where
  pub x : ℕ
  pub y : ℕ
  pub elevation : ℕ
  pub terrain : Terrain

-- `owner` is a 1-based placement slot.
pub record CityPlacement : Type 0 where
  pub cell : Coord
  pub owner : ℕ

pub record Board : Type 0 where
  pub width : ℕ
  pub height : ℕ
  pub cells : List Cell
  pub cities : List CityPlacement

pub record MatchConfig : Type 0 where
  pub board_size : ℕ
  pub player_ids : List (List ℕ)
  pub tick_interval_ms : ℕ
  pub seed : ℕ
  pub visibility_radius : ℕ

abbrev pub Pos : Type 0
Pos = ℕ × ℕ

abbrev pub coord : Pos → Coord
coord (x, y) = record { x = int (pos x); y = int (pos y) }

-- `(dx, dy)` of the code's DIRECTION_OFFSETS.
abbrev pub offset : Direction → ℤ × ℤ
offset north = (pos 0, negsuc 0)
offset east = (pos 1, pos 0)
offset south = (pos 0, pos 1)
offset west = (negsuc 0, pos 0)

-- The test `Number.isInteger(x) && 0 <= x < bound`, with the number that passes it.
abbrev pub below : ℕ → Num → Option ℕ
below bound (int (pos n)) = if ltb n bound then some n else none
below bound (int (negsuc n)) = none
below bound other = none

abbrev pub both : Option ℕ → Option ℕ → Option Pos
both (some x) (some y) = some (x, y)
both (some x) none = none
both none y = none

-- The bounds check of a coordinate, with the cell that passes it.
unfoldable pub in_bounds : ℕ → ℕ → Coord → Option Pos
in_bounds w h c = both (below w c.x) (below h c.y)

-- `cell !== undefined && cell.terrain === 'land'`.
abbrev pub is_land_cell : Option Cell → Bool
is_land_cell none = false
is_land_cell (some c) = is_land c.terrain

-- `(x + dx, y + dy)`.
abbrev pub moved_coord : Direction → Pos → Coord
moved_coord d (x, y) = let o = offset d in record { x = int (pos x +ℤ o.0); y = int (pos y +ℤ o.1) }

-- `y * width + x`, the row-major index of a cell.
abbrev pub index : ℕ → Pos → ℕ
index w (x, y) = y * w + x

abbrev raw_index_num : ℕ → Num → Num → Option ℕ
raw_index_num w (int x) (int y) =
    elim (sub_ℕ (pos_part y * w + pos_part x) (neg_part y * w + neg_part x)) [
      | pos i ↦ some i
      | negsuc _ ↦ none
    ]
raw_index_num w (int x) other = none
raw_index_num w other y = none

-- `coord.y * width + coord.x` before any check: an index at which a typed array ignores the write is
-- `none`.
unfoldable pub raw_index : ℕ → Coord → Option ℕ
raw_index w c = raw_index_num w c.x c.y
