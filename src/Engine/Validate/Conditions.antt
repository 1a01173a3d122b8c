-- ===== src/Engine/Validate/Conditions.antt =====
-- The conditions on an order, stated apart from the checks of validate.ts.
use europa_neo.Prelude.{ℕ, ◌+◌, ◌^◌, ◌≤◌, ◌<◌, ◌≡◌, ◌⊎◌, at, get_elem?, some, true}
use europa_neo.Core.Types.{Coord, Pos, in_bounds, index, is_land_cell}
use europa_neo.Core.FlowRate.{engine_constants}
use europa_neo.Core.PlayerId.{PlayerId}
use europa_neo.Engine.Types.{
  World, Player, Order, gun, set_pipe, clear_pipe, set_pipes_exclusive, clear_all_pipes,
  set_reserves, paratroop, surrender, alive,
}
use europa_neo.Engine.Reserves.{compute_reserves_floor}
use europa_neo.Engine.Paratroop.{chebyshev, paratroop_max_range, source_spend}
use europa_neo.Engine.Validate.{resolve_player_byte, destination, percent_in_range, find_player}

-- The player owns the troops or the city at a cell of the board.
pub record Owns (w : World) (player : PlayerId) (cell : Coord) : Type 0 where
  pub pos : Pos
  pub byte : ℕ
  pub inside : in_bounds w.board.width w.board.height cell ≡ some pos
  pub registered : resolve_player_byte w player ≡ some byte
  pub holds :
      (at w.state.troop_owners (index w.board.width pos) ≡ byte)
      ⊎ (at w.state.city_owners (index w.board.width pos) ≡ byte)

pub record IsLandAt (w : World) (cell : Coord) : Type 0 where
  pub pos : Pos
  pub inside : in_bounds w.board.width w.board.height cell ≡ some pos
  pub on_land : is_land_cell (get_elem? w.board.cells (index w.board.width pos)) ≡ true

-- The stack at a cell of the board can pay `cost` above its reserves.
pub record CanPay (w : World) (source : Coord) (cost : ℕ) : Type 0 where
  pub pos : Pos
  pub inside : in_bounds w.board.width w.board.height source ≡ some pos
  pub pays :
      let i = index w.board.width pos in
      compute_reserves_floor (at w.state.troop_counts i) (at w.state.reserves_pct i) + cost
      ≤ at w.state.troop_counts i

pub record InRange (w : World) (source target : Coord) : Type 0 where
  pub from : Pos
  pub to : Pos
  pub source_inside : in_bounds w.board.width w.board.height source ≡ some from
  pub target_inside : in_bounds w.board.width w.board.height target ≡ some to
  pub near : chebyshev from to ≤ paratroop_max_range

abbrev pub IsOnBoard : World → Coord → Type 0
IsOnBoard w cell = (p : Pos) × (in_bounds w.board.width w.board.height cell ≡ some p)

abbrev pub IsAlive : World → PlayerId → Type 0
IsAlive w player = (p : Player) × (find_player player w.players ≡ some p) × (p.status ≡ alive)

-- What an order must satisfy.
abbrev pub Accepts : World → Order → Type 0
Accepts w (set_pipe player cell d) = Owns w player cell × IsLandAt w (destination d cell)
Accepts w (clear_pipe player cell d) = Owns w player cell
Accepts w (set_pipes_exclusive player cell d) = Owns w player cell
Accepts w (clear_all_pipes player cell) = Owns w player cell
Accepts w (set_reserves player cell percent) =
    (percent_in_range percent ≡ true) × Owns w player cell
Accepts w (paratroop player source target) =
    Owns w player source
    × IsLandAt w target
    × InRange w source target
    × CanPay w source (source_spend engine_constants)
Accepts w (gun player source target) =
    Owns w player source × IsOnBoard w target × CanPay w source engine_constants.gun_cost
Accepts w (surrender player) = IsAlive w player

-- Every count is a number of 32 bits.
abbrev pub AreWords : World → Type 0
AreWords w = (i : ℕ) → at w.state.troop_counts i < 2 ^ 32
