-- ===== src/Engine/Examples/Orders.antt =====
-- An order that is accepted, and the creation of a world.
use europa_neo.Prelude.{
  inl, ℕ, zero, suc, ◌/◌, ◌%◌, ◌≡◌, refl, arith, List, [], ◌∷◌, some, Returns, true,
}
use mathlib.Core.List.{Perm}
use mathlib.Core.List.Perm
use europa_neo.Core.Types.{coord, south, Board, Cell, CityPlacement, land, MatchConfig, in_bounds}
use europa_neo.Core.PlayerId.{is_player_id, all_id_chars, is_id_char}
use europa_neo.Engine.Types.{Order, set_pipe, ok}
use europa_neo.Engine.Valid.{capped-at}
use europa_neo.Engine.Registry.{
  created, create_player_registry, check_ids, sort_by, insert_by, compare_utf16, index_of_id,
}
use europa_neo.Engine.Registry.Canonical.{create_player_registry-canonical}
use europa_neo.Engine.Validate.{
  validate_command, validate_set_pipe, validate_source_ownership, check_owner, resolve_player_byte,
  validate_pipe_destination,
}
use europa_neo.Engine.Validate.Conditions.{Accepts, AreWords}
use europa_neo.Engine.Validate.Complete.{validate_command_complete}
use europa_neo.Engine.Validate.Laws.{validate_command-Accepts}
use europa_neo.Engine.Create.{check_board, check_cells, check_cities, create_world}
use europa_neo.Engine.Create.Laws.{IsNew, create_world-Returns}
use europa_neo.Engine.Examples.{
  ann, bob, two_players, two_fit, two_stacks-IsValid, two_world, two_store, two_store-IsStore,
}

-- Ann sends troops from her city to the south.
abbrev south_order : Order
south_order = set_pipe ann (coord (0, 0)) south

two_world-AreWords : AreWords two_world
two_world-AreWords i = omega (arith, capped-at two_fit two_stacks-IsValid.troops i)

south_order-accepted : validate_command two_world south_order ≡ ok
unfolding validate_command validate_set_pipe validate_source_ownership check_owner
    resolve_player_byte validate_pipe_destination in_bounds index_of_id is_player_id all_id_chars
    is_id_char
south_order-accepted = refl

validate_command-Accepts_example : Accepts two_world south_order
validate_command-Accepts_example =
    validate_command-Accepts two_world south_order two_world-AreWords south_order-accepted

south_order-Accepts : Accepts two_world south_order
unfolding in_bounds resolve_player_byte index_of_id is_player_id all_id_chars is_id_char
south_order-Accepts = (
  record { pos = (0, 0); byte = 1; inside = refl; registered = refl; holds = inl refl },
  record { pos = (0, 1); inside = refl; on_land = refl },
)

validate_command_complete_example : validate_command two_world south_order ≡ ok
validate_command_complete_example =
    validate_command_complete two_world south_order two_world-AreWords south_order-Accepts

-- Land of eight by eight cells, the cell `i - 1` last.
abbrev flat : ℕ → List Cell → List Cell
flat zero cells = cells
flat (suc i) cells = flat i (record { x = i % 8; y = i / 8; elevation = i; terrain = land } ∷ cells)

abbrev city : ℕ → ℕ → ℕ → CityPlacement
city x y owner = record { cell = coord (x, y); owner = owner }

abbrev wide_board : Board
wide_board = record {
  width = 8;
  height = 8;
  cells = flat 64 [];
  cities = city 1 1 1 ∷ city 6 6 2 ∷ [];
}

-- The slots name Bob first; the registry has Ann first.
abbrev wide_config : MatchConfig
wide_config = record {
  board_size = 8;
  player_ids = bob ∷ ann ∷ [];
  tick_interval_ms = 1000;
  seed = 7;
  visibility_radius = 4;
}

wide_config-registered : create_player_registry wide_config.player_ids ≡ created two_players
unfolding create_player_registry check_ids sort_by insert_by compare_utf16 is_player_id all_id_chars
    is_id_char
wide_config-registered = refl

wide_board-checked : check_board wide_config wide_board ≡ true
unfolding check_board
wide_board-checked = refl

wide_board-cells : check_cells wide_board wide_board.cells ≡ true
unfolding check_cells
wide_board-cells = refl

wide_board-cities : check_cities 2 wide_board [] wide_board.cities ≡ some ((9, 1) ∷ (54, 2) ∷ [])
unfolding check_cities in_bounds
wide_board-cities = refl

create_world-Returns_example : Returns IsNew (create_world two_store wide_config wide_board)
create_world-Returns_example =
    create_world-Returns two_store wide_config wide_board two_players ((9, 1) ∷ (54, 2) ∷ [])
      two_store-IsStore wide_board-checked wide_config-registered wide_board-cells wide_board-cities

swapped_ids : Perm wide_config.player_ids (ann ∷ bob ∷ [])
swapped_ids = Perm.swap ann bob []

in_order-registered : create_player_registry (ann ∷ bob ∷ []) ≡ created two_players
unfolding create_player_registry check_ids sort_by insert_by compare_utf16 is_player_id all_id_chars
    is_id_char
in_order-registered = refl

create_player_registry-canonical_example : two_players ≡ two_players
create_player_registry-canonical_example =
    create_player_registry-canonical wide_config.player_ids (ann ∷ bob ∷ []) two_players two_players
      swapped_ids wide_config-registered in_order-registered
