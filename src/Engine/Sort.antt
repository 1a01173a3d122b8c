-- ===== src/Engine/Sort.antt =====
-- `sortOrdersDeterministic` of packages/engine/src/tick.ts: the order in which orders are applied.
use europa_neo.Prelude.{
  ℕ, if◌then◌else◌, Bool, not, Option, none, some, List, [], ◌∷◌, ltb, true, false, ℤ, pos, negsuc,
  eqb_ℤ, pos_part, neg_part, sub_ℕ, ◌+◌,
}
use Prim.Native.Char.{code}
use Prim.Native.String.{String}
use europa_neo.Core.Types.{Num, int, other, Coord, Direction, north, east, south, west}
use europa_neo.Core.PlayerId.{PlayerId, eq_id}
use europa_neo.Engine.Types.{
  Order, gun, set_pipe, clear_pipe, set_pipes_exclusive, clear_all_pipes, set_reserves, paratroop,
  surrender,
}
use europa_neo.Engine.Registry.{compare_utf16, sort_by}

abbrev codes : String → List ℕ
codes String.[] = []
codes (String.◌∷◌ c s) = code c ∷ codes s

abbrev pub player_of : Order → PlayerId
player_of (set_pipe p _ _) = p
player_of (clear_pipe p _ _) = p
player_of (set_pipes_exclusive p _ _) = p
player_of (clear_all_pipes p _) = p
player_of (set_reserves p _ _) = p
player_of (paratroop p _ _) = p
player_of (gun p _ _) = p
player_of (surrender p) = p

-- The order's `kind`.
unfoldable pub kind_of : Order → List ℕ
kind_of (set_pipe _ _ _) = codes "setPipe"
kind_of (clear_pipe _ _ _) = codes "clearPipe"
kind_of (set_pipes_exclusive _ _ _) = codes "setPipesExclusive"
kind_of (clear_all_pipes _ _) = codes "clearAllPipes"
kind_of (set_reserves _ _ _) = codes "setReserves"
kind_of (paratroop _ _ _) = codes "paratroop"
kind_of (gun _ _ _) = codes "gun"
kind_of (surrender _) = codes "surrender"

unfoldable pub pick_coord : Order → Option Coord
pick_coord (set_pipe _ c _) = some c
pick_coord (clear_pipe _ c _) = some c
pick_coord (set_pipes_exclusive _ c _) = some c
pick_coord (clear_all_pipes _ c) = some c
pick_coord (set_reserves _ c _) = some c
pick_coord (paratroop _ c _) = some c
pick_coord (gun _ c _) = some c
pick_coord (surrender _) = none

abbrev letter : Direction → ℕ
letter north = b'N'
letter east = b'E'
letter south = b'S'
letter west = b'W'

-- The letter of the order's direction.
unfoldable pub pick_direction : Order → Option ℕ
pick_direction (set_pipe _ _ d) = some (letter d)
pick_direction (clear_pipe _ _ d) = some (letter d)
pick_direction (set_pipes_exclusive _ _ d) = some (letter d)
pick_direction (clear_all_pipes _ _) = none
pick_direction (set_reserves _ _ _) = none
pick_direction (paratroop _ _ _) = none
pick_direction (gun _ _ _) = none
pick_direction (surrender _) = none

abbrev is_negative : ℤ → Bool
is_negative (pos n) = false
is_negative (negsuc n) = true

-- `a - b` as a comparator's result; where a side is no integer, NaN, which sorts as 0.
abbrev num_diff : Num → Num → ℤ
num_diff (int a) (int b) = sub_ℕ (pos_part a + neg_part b) (pos_part b + neg_part a)
num_diff (int a) other = pos 0
num_diff other b = pos 0

-- `a !== b`.
abbrev num_ne : Num → Num → Bool
num_ne (int a) (int b) = not (eqb_ℤ a b)
num_ne (int a) other = true
num_ne other b = true

abbrev compare_letters : Option ℕ → Option ℕ → ℤ
compare_letters (some a) (some b) = if ltb a b then negsuc 0 else if ltb b a then pos 1 else pos 0
compare_letters (some a) none = pos 0
compare_letters none b = pos 0

abbrev compare_coords : Option Coord → Option Coord → ℤ → ℤ
compare_coords (some a) (some b) next =
    if num_ne a.x b.x then num_diff a.x b.x else if num_ne a.y b.y then num_diff a.y b.y else next
compare_coords (some a) none next = next
compare_coords none b next = next

unfoldable pub tie_break : Order → Order → ℤ
tie_break a b =
    compare_coords (pick_coord a) (pick_coord b)
      (compare_letters (pick_direction a) (pick_direction b))

-- By player, then by kind, then by cell and direction.
unfoldable pub compare_orders : Order → Order → ℤ
compare_orders a b =
    if not (eq_id (player_of a) (player_of b))
    then compare_utf16 (player_of a) (player_of b)
    else if not (eq_id (kind_of a) (kind_of b))
    then (if is_negative (compare_utf16 (kind_of a) (kind_of b)) then negsuc 0 else pos 1)
    else tie_break a b

unfoldable pub sort_orders : List Order → List Order
sort_orders = sort_by compare_orders
