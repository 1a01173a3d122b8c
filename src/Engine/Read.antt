-- ===== src/Engine/Read.antt =====
-- packages/engine/src/read.ts: the decoded view of a world.
pub mod Laws
use europa_neo.Prelude.{
  ℕ, zero, suc, ◌+◌, ◌-◌, ◌==◌, min, if◌then◌else◌, Bool, true, false, Option, none, some, ◌>>=◌,
  List, [], ◌∷◌, ◌++◌, at, get_elem?, ℤ, bits32, pos_part, collect,
}
use europa_neo.Core.Types.{
  Direction, north, east, south, west, Cell, Coord, Pos, coord, index, in_bounds, moved_coord,
}
use europa_neo.Core.PlayerId.{PlayerId}
use europa_neo.Core.Rng.{to_int32}
use europa_neo.Engine.Types.{World, Player, PlayerStatus, alive}
use europa_neo.Engine.Registry.{index_of_id, require_id}
use europa_neo.Engine.Pipes.{has_pipe}

-- `pipes` is a set, in the order in which its elements were added.
pub record CellView : Type 0 where
  pub coord : Pos
  pub cell : Cell
  pub troop_count : ℕ
  pub troop_owner : Option PlayerId
  pub pipes : List Direction
  pub reserves_percent : ℕ
  pub city_owner : Option PlayerId

abbrev add_if : Bool → Direction → List Direction → List Direction
add_if b d ds = if b then ds ++ d ∷ [] else ds

abbrev pub decode_pipes : ℕ → List Direction
decode_pipes mask = add_if (has_pipe mask west) west (
    add_if (has_pipe mask south) south
      (add_if (has_pipe mask east) east (add_if (has_pipe mask north) north [])))

-- `byte === 0 ? null : requireIdAt(byte - 1)`: a throw is the outer `none`.
abbrev pub decode_owner : World → ℕ → Option (Option PlayerId)
decode_owner w zero = some none
decode_owner w (suc i) = require_id w.registry (suc i) >>= λ id. some (some id)

unfoldable pub get_cell : World → Pos → Option CellView
get_cell w p = do
  let idx = index w.board.width p
  cell ← get_elem? w.board.cells idx
  troop_owner ← decode_owner w (at w.state.troop_owners idx)
  city_owner ← decode_owner w (at w.state.city_owners idx)
  some (record {
    coord = p;
    cell = cell;
    troop_count = at w.state.troop_counts idx;
    troop_owner = troop_owner;
    pipes = decode_pipes (at w.state.pipe_masks idx);
    reserves_percent = at w.state.reserves_pct idx;
    city_owner = city_owner;
  })

-- The visitor's state, with `false` where the visitor has stopped the loops.
module _ {ℓ} {State : Type ℓ} (w : World) (visit : CellView → State → State × Bool) where
  unfoldable pub visit_row : (cells x y : ℕ) → State → Option (State × Bool)
  visit_row zero x y state = some (state, true)
  visit_row (suc cells) x y state = get_cell w (x, y) >>= λ view.
      let out = visit view state in
      let rest = visit_row cells (x + 1) y out.0 in if out.1 then rest else some out

  unfoldable pub visit_rows : (rows y : ℕ) → State → Option (State × Bool)
  unfolding visit_row
  visit_rows zero y state = some (state, true)
  visit_rows (suc rows) y state = visit_row w.board.width 0 y state >>= λ out.
      let rest = visit_rows rows (y + 1) out.0 in if out.1 then rest else some out

  unfoldable pub for_each_cell : State → Option State
  unfolding visit_rows
  for_each_cell state = visit_rows w.board.height 0 state >>= λ out. some out.0

-- `Math.max(0, r | 0)`.
abbrev pub clamp_radius : ℤ → ℕ
clamp_radius r = pos_part (to_int32 (bits32 r))

-- How many of the numbers from `center - radius` to `center + radius` are from 0 to `bound - 1`.
abbrev pub span : (bound center radius : ℕ) → ℕ
span bound center radius = min bound (center + radius + 1) - (center - radius)

unfoldable pub cells_in_range : World → Pos → ℤ → List Pos
cells_in_range w center r =
    let radius = clamp_radius r in
    collect (span w.board.height center.1 radius) (center.1 - radius)
      (span w.board.width center.0 radius) (center.0 - radius) (λ _. true)

abbrev step_from : World → Pos → Direction → List (Direction × Pos) → List (Direction × Pos)
step_from w p d rest = elim (in_bounds w.board.width w.board.height (moved_coord d p)) [
  | none ↦ rest
  | some q ↦ (d, q) ∷ rest
]

unfoldable pub neighbors_of : World → Pos → List (Direction × Pos)
neighbors_of w p =
    step_from w p north (step_from w p east (step_from w p south (step_from w p west [])))

unfoldable pub get_player : World → PlayerId → Option Player
get_player w id = index_of_id w.registry id >>= get_elem? w.players

abbrev is_alive : PlayerStatus → Bool
is_alive alive = true
is_alive _ = false

abbrev alive_ids : List Player → List PlayerId
alive_ids [] = []
alive_ids (p ∷ ps) = if is_alive p.status then p.id ∷ alive_ids ps else alive_ids ps

unfoldable pub alive_players : World → List PlayerId
alive_players w = alive_ids w.players
