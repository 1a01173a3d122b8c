-- ===== src/Engine/Create.antt =====
-- packages/engine/src/create.ts: the world that a match starts with. `none` is a thrown error. The
-- sizes, the elevation, the coordinates of a cell and the owner of a city are natural numbers here, and
-- a terrain is one of two: what the code checks of that is so by type.
pub mod Laws
use europa_neo.Prelude.{
  ℕ, zero, suc, ◌+◌, ◌-◌, ◌*◌, ltb, leb, ◌==◌, not, ◌&&◌, ◌||◌, if◌then◌else◌, Bool, true, false,
  Option, none, some, ◌>>=◌, List, [], ◌∷◌, length, get_elem?, replicate, write8, u32,
}
use europa_neo.Core.Types.{
  Pos, Cell, CityPlacement, Board, MatchConfig, in_bounds, index, is_land_cell,
}
use europa_neo.Core.PlayerId.{PlayerId}
use europa_neo.Core.Rng.{hash_seed}
use europa_neo.Engine.Types.{World, WorldState, Player, alive, PlayerRegistry}
use europa_neo.Engine.Registry.{create_player_registry, Created, created, refused, index_of_id}
use europa_neo.Engine.Terminal.{Totals, total, add_total}
use europa_neo.Engine.ApplyCommand.{Store}

abbrev pub min_board_size : ℕ
min_board_size = 8

abbrev pub max_elevation : ℕ
max_elevation = 255

unfoldable pub check_board : MatchConfig → Board → Bool
check_board config board =
    not (ltb config.board_size min_board_size)
    && board.width == board.height
    && board.width == config.board_size
    && length board.cells == board.width * board.height

unfoldable pub check_cells : Board → List Cell → Bool
check_cells board [] = true
check_cells board (c ∷ cs) =
    leb c.elevation max_elevation
    && (ltb c.x board.width && ltb c.y board.height)
    && check_cells board cs

abbrev pub mem : ℕ → List ℕ → Bool
mem k [] = false
mem k (x ∷ xs) = x == k || mem k xs

-- The checks of one city at a position on the board.
abbrev pub check_city : ℕ → Board → List ℕ → CityPlacement → Pos → Bool
check_city slots board seen city p =
    leb 1 city.owner
    && leb city.owner slots
    && not (mem (index board.width p) seen)
    && is_land_cell (get_elem? board.cells (index board.width p))

-- The loop over the cities with the set of the cells seen; the cells of the cities that pass.
unfoldable pub check_cities : ℕ → Board → List ℕ → List CityPlacement → Option (List (ℕ × ℕ))
check_cities slots board seen [] = some []
check_cities slots board seen (c ∷ cs) = in_bounds board.width board.height c.cell >>= λ p.
    let rest = check_cities slots board (index board.width p ∷ seen) cs in
    if check_city slots board seen c p
    then (rest >>= λ placed. some ((index board.width p, c.owner) ∷ placed))
    else none

-- The id of a placement slot.
abbrev pub slot_id : List PlayerId → ℕ → Option PlayerId
slot_id ids zero = none
slot_id ids (suc i) = get_elem? ids i

-- The loop that fills `cityOwners` from the cities' cells and slots.
unfoldable pub place_cities :
    PlayerRegistry → List PlayerId → List (ℕ × ℕ) → List ℕ → Option (List ℕ)
place_cities r ids [] owners = some owners
place_cities r ids ((idx, slot) ∷ placed) owners = slot_id ids slot >>= λ id.
    index_of_id r id >>= λ dense. place_cities r ids placed (write8 owners idx (dense + 1))

-- `citiesOwnedByPlayer`.
unfoldable pub count_cities : List PlayerId → List CityPlacement → Totals → Totals
count_cities ids [] m = m
count_cities ids (c ∷ cs) m = elim (slot_id ids c.owner) [
  | none ↦ count_cities ids cs m
  | some id ↦ count_cities ids cs (add_total id 1 m)
]

unfoldable pub create_players : List PlayerId → Totals → List Player
create_players [] m = []
create_players (id ∷ ids) m =
    record {
      id = id;
      display_name = id;
      status = alive;
      cities_owned = total id m;
      troops_held = 0;
    }
    ∷ create_players ids m

abbrev registry_of : Created → Option PlayerRegistry
registry_of (created r) = some r
registry_of (refused e) = none

abbrev require : Bool → Option (Unit {0})
require true = some tt
require false = none

-- The world is a new object.
unfoldable pub create_world : Store → MatchConfig → Board → Option (Store × World)
create_world st config board = do
  _ ← require (check_board config board)
  registry ← registry_of (create_player_registry config.player_ids)
  _ ← require (check_cells board board.cells)
  placed ← check_cities (length config.player_ids) board [] board.cities
  let n = board.width * board.height
  city_owners ← place_cities registry config.player_ids placed (replicate n 0)
  some (
    record st { next_ref = st.next_ref + 1 },
    record {
      ref = st.next_ref;
      config = config;
      tick = 0;
      board = board;
      players = create_players registry.ids (count_cities config.player_ids board.cities []);
      state = record {
        troop_counts = replicate n 0;
        troop_owners = replicate n 0;
        pipe_masks = replicate n 0;
        reserves_pct = replicate n 0;
        city_owners = city_owners;
      };
      rng_seed = u32 config.seed;
      rng_state = hash_seed (u32 config.seed);
      registry = registry;
    },
  )
