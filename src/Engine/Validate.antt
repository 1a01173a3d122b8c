-- ===== src/Engine/Validate.antt =====
-- packages/engine/src/validate.ts: which orders a world accepts. The fields of an order are present
-- and a direction is one of the four, by the type `Order`; `hasRequiredFields` and
-- `validateDirection` refuse what is not of that type.
pub mod Conditions
pub mod Laws
pub mod Complete
use europa_neo.Prelude.{
  ℕ, suc, ◌+◌, ltb, ◌==◌, not, ◌&&◌, ◌||◌, if◌then◌else◌, Bool, true, false, Option, none, some,
  List, [], ◌∷◌, at, get_elem?, u32, sub32, pos, negsuc,
}
use europa_neo.Core.Types.{
  Num, int, other, Coord, Pos, Cell, Direction, in_bounds, moved_coord, index, is_land,
  is_land_cell,
}
use europa_neo.Core.FlowRate.{engine_constants}
use europa_neo.Core.PlayerId.{PlayerId, eq_id}
use europa_neo.Engine.Types.{
  World, Player, PlayerStatus, alive, surrendered, eliminated, Order, gun, set_pipe, clear_pipe,
  set_pipes_exclusive, clear_all_pipes, set_reserves, paratroop, surrender, CommandResult, ok, fail,
  out_of_bounds, unknown_player, not_owner, no_source_troops, water_target, paratroop_range,
  invalid_percent, already_surrendered,
}
use europa_neo.Engine.Registry.{index_of_id}
use europa_neo.Engine.Reserves.{compute_reserves_floor}
use europa_neo.Engine.Paratroop.{chebyshev, paratroop_max_range, source_spend}

-- `if (!check.ok) return check;`
infixl 5 ◌>>◌
abbrev pub ◌>>◌ : CommandResult → CommandResult → CommandResult
ok >> next = next
fail e >> next = fail e

abbrev pub is_ok : CommandResult → Bool
is_ok ok = true
is_ok (fail e) = false

unfoldable pub resolve_player_byte : World → PlayerId → Option ℕ
resolve_player_byte w player = elim (index_of_id w.registry player) [
  | none ↦ none
  | some i ↦ some (i + 1)
]

-- The check of the owner at a cell that is on the board.
unfoldable pub check_owner : World → Coord → PlayerId → ℕ → CommandResult
check_owner w cell player idx =
    let troop_owner = at w.state.troop_owners idx in
    let city_owner = at w.state.city_owners idx in
    elim (resolve_player_byte w player) [
      | none ↦ fail (unknown_player player)
      | some b ↦
          if not (troop_owner == b) && not (city_owner == b) then fail (not_owner cell) else ok
    ]

unfoldable pub validate_source_ownership : World → Coord → PlayerId → CommandResult
validate_source_ownership w cell player = elim (in_bounds w.board.width w.board.height cell) [
  | none ↦ fail (out_of_bounds cell)
  | some p ↦ check_owner w cell player (index w.board.width p)
]

-- The destination of a pipe from a coordinate that passed its check.
abbrev pub destination : Direction → Coord → Coord
destination d cell = elim cell.x [
  | int (pos x) ↦ elim cell.y [
    | int (pos y) ↦ moved_coord d (x, y)
    | int (negsuc y) ↦ cell
    | other ↦ cell
  ]
  | int (negsuc x) ↦ cell
  | other ↦ cell
]

abbrev check_pipe_target : Coord → Option Cell → CommandResult
check_pipe_target dst none = fail (out_of_bounds dst)
check_pipe_target dst (some c) = if is_land c.terrain then ok else fail (water_target dst)

unfoldable pub validate_pipe_destination : World → Coord → CommandResult
validate_pipe_destination w dst = elim (in_bounds w.board.width w.board.height dst) [
  | none ↦ fail (out_of_bounds dst)
  | some q ↦ check_pipe_target dst (get_elem? w.board.cells (index w.board.width q))
]

unfoldable pub validate_set_pipe : World → Coord → Direction → PlayerId → CommandResult
validate_set_pipe w cell d player =
    validate_source_ownership w cell player >> validate_pipe_destination w (destination d cell)

abbrev pub percent_in_range : Num → Bool
percent_in_range (int (pos p)) = ltb p 10
percent_in_range (int (negsuc p)) = false
percent_in_range other = false

unfoldable pub validate_set_reserves : World → Coord → Num → PlayerId → CommandResult
validate_set_reserves w cell percent player =
    if percent_in_range percent
    then validate_source_ownership w cell player
    else fail (invalid_percent percent)

-- Whether the source can pay `cost` above its reserves.
unfoldable pub check_troops : World → Coord → ℕ → ℕ → CommandResult
check_troops w source src cost =
    let count = at w.state.troop_counts src in
    let floor = compute_reserves_floor count (at w.state.reserves_pct src) in
    if ltb (sub32 count floor) cost then fail (no_source_troops source) else ok

-- The checks of terrain, range and troops.
unfoldable pub check_drop : World → Coord → Coord → Pos → Pos → CommandResult
check_drop w source target s t =
    let width = w.board.width in
    if not (is_land_cell (get_elem? w.board.cells (index width t)))
    then fail (water_target target)
    else if ltb paratroop_max_range (chebyshev s t)
    then fail (paratroop_range source target (chebyshev s t))
    else check_troops w source (index width s) (source_spend engine_constants)

unfoldable pub validate_paratroop : World → Coord → Coord → PlayerId → CommandResult
validate_paratroop w source target player =
    validate_source_ownership w source player
    >> elim (in_bounds w.board.width w.board.height source) [
      | none ↦ fail (out_of_bounds source)
      | some s ↦ elim (in_bounds w.board.width w.board.height target) [
        | none ↦ fail (out_of_bounds target)
        | some t ↦ check_drop w source target s t
      ]
    ]

unfoldable pub validate_gun : World → Coord → Coord → PlayerId → CommandResult
validate_gun w source target player =
    validate_source_ownership w source player
    >> elim (in_bounds w.board.width w.board.height source) [
      | none ↦ fail (out_of_bounds source)
      | some s ↦ elim (in_bounds w.board.width w.board.height target) [
        | none ↦ fail (out_of_bounds target)
        | some t ↦ check_troops w source (index w.board.width s) engine_constants.gun_cost
      ]
    ]

abbrev pub find_player : PlayerId → List Player → Option Player
find_player id [] = none
find_player id (p ∷ ps) = if eq_id p.id id then some p else find_player id ps

abbrev pub check_status : PlayerId → PlayerStatus → CommandResult
check_status player alive = ok
check_status player surrendered = fail (already_surrendered player)
check_status player eliminated = fail (already_surrendered player)

unfoldable pub validate_surrender : World → PlayerId → CommandResult
validate_surrender w player = elim (find_player player w.players) [
  | none ↦ fail (unknown_player player)
  | some p ↦ check_status player p.status
]

unfoldable pub validate_command : World → Order → CommandResult
validate_command w (set_pipe player cell d) = validate_set_pipe w cell d player
validate_command w (clear_pipe player cell d) = validate_source_ownership w cell player
validate_command w (set_pipes_exclusive player cell d) = validate_source_ownership w cell player
validate_command w (clear_all_pipes player cell) = validate_source_ownership w cell player
validate_command w (set_reserves player cell percent) = validate_set_reserves w cell percent player
validate_command w (paratroop player source target) = validate_paratroop w source target player
validate_command w (gun player source target) = validate_gun w source target player
validate_command w (surrender player) = validate_surrender w player
