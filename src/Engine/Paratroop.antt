-- ===== src/Engine/Paratroop.antt =====
-- packages/engine/src/resolution/paratroop.ts: paratroopers land at most two cells away.
pub mod Landing
pub mod Effects
pub mod Launches
pub mod Drops
pub mod Laws
use europa_neo.Prelude.{
  ℕ, suc, ◌+◌, ◌-◌, ◌*◌, ltb, leb, max, ◌==◌, not, ◌&&◌, if◌then◌else◌, Bool, false, Option, none,
  some, ◌>>=◌, List, [], ◌∷◌, ◌++◌, at, get_elem?, u32, sub32, write32, write8,
}
use europa_neo.Core.Types.{Board, Cell, Coord, Pos, coord, in_bounds, index, is_land_cell}
use europa_neo.Core.FlowRate.{EngineConstants}
use europa_neo.Core.PlayerId.{PlayerId}
use europa_neo.Engine.Types.{
  WorldState, Order, gun, set_pipe, clear_pipe, set_pipes_exclusive, clear_all_pipes, set_reserves,
  paratroop, surrender, OrderError, PlayerRegistry, ValidationError, out_of_bounds, unknown_player,
  not_owner, no_source_troops, water_target, paratroop_range, TickEvents, empty_tick_events,
  push_combat_event,
}
use europa_neo.Engine.Registry.{index_of_id, require_id}
use europa_neo.Engine.Reserves.{compute_reserves_floor}
use europa_neo.Engine.Attrition.{AttritionOutcome, resolve_two_way_attrition}
use europa_neo.Engine.Combat.{winner_of}

abbrev pub paratroop_max_range : ℕ
paratroop_max_range = 2

pub record Drop : Type 0 where
  pub counts : List ℕ
  pub owners : List ℕ
  pub pipes : List ℕ
  pub errors : List OrderError
  pub successful : List ℕ
  pub events : TickEvents

-- What the loop over the orders reads.
pub record Zone : Type 0 where
  pub board : Board
  pub constants : EngineConstants
  pub reserves : List ℕ
  pub registry : PlayerRegistry
  pub tick : ℕ

abbrev pub abs_diff : ℕ → ℕ → ℕ
abs_diff a b = a - b + (b - a)

-- The Chebyshev distance.
unfoldable pub chebyshev : Pos → Pos → ℕ
chebyshev (x, y) (x', y') =
    let dx = abs_diff x' x in let dy = abs_diff y' y in if ltb dy dx then dx else dy

-- A landing on an enemy's cell: a fight, with its event.
unfoldable pub land_on_enemy : Zone → Pos → ℕ → ℕ → ℕ → Drop → Option Drop
land_on_enemy z target dst attacker owner d = do
  let count = at d.counts dst
  let n = u32 z.constants.paratroop_cost
  let out = resolve_two_way_attrition (record {
    attacker_owner = attacker;
    attacker_total = n;
    defender_owner = owner;
    defender_total = count;
    cell_capacity = u32 z.constants.cell_capacity;
  })
  attacker_id ← require_id z.registry attacker
  defender_id ← require_id z.registry owner
  winner ← winner_of z.registry out.winner_owner
  some (record d {
    counts = write32 d.counts dst out.winner_count;
    owners = if out.winner_owner == owner then d.owners else write8 d.owners dst out.winner_owner;
    events = push_combat_event d.events (record {
      tick = z.tick;
      cell = coord target;
      attacker = attacker_id;
      defender = defender_id;
      attacker_loss = out.damage;
      defender_loss = out.damage;
      winner = winner;
      attacker_total = n;
      defender_total = count;
    });
  })

-- A landing on a neutral cell or on one's own.
unfoldable pub land_on_free : Zone → ℕ → ℕ → Drop → Drop
land_on_free z dst attacker d =
    let cap = u32 z.constants.cell_capacity in
    let count = at d.counts dst + u32 z.constants.paratroop_cost in
    record d {
      counts = write32 d.counts dst (if ltb cap count then cap else count);
      owners = write8 d.owners dst attacker;
    }

unfoldable pub land_at : Zone → Pos → ℕ → ℕ → Drop → Option Drop
land_at z target dst attacker d =
    let owner = at d.owners dst in
    if not (owner == 0) && not (owner == attacker)
    then land_on_enemy z target dst attacker owner d
    else some (land_on_free z dst attacker d)

-- The source pays: `count` is the word that is left. A difference of two words is 0 exactly if its word is.
unfoldable pub spend : ℕ → ℕ → Drop → Drop
spend src count d = record d {
  counts = write32 d.counts src count;
  owners = if count == 0 then write8 d.owners src 0 else d.owners;
}

unfoldable pub source_spend : EngineConstants → ℕ
source_spend c = u32 (u32 c.paratroop_cost * 2)

-- The effects of an order that passed the checks, recorded as `number`.
unfoldable pub launch : Zone → ℕ → Pos → ℕ → ℕ → ℕ → Drop → Option Drop
launch z src target dst attacker number d = do
  landed ←
      land_at z target dst attacker
        (spend src (sub32 (at d.counts src) (source_spend z.constants)) d)
  some (record landed {
    pipes = write8 landed.pipes dst 0;
    successful = landed.successful ++ number ∷ [];
  })

abbrev refuse : Order → ValidationError → Drop → Drop
refuse order reason d = record d {
  errors = d.errors ++ record { order = order; reason = reason } ∷ [];
}

-- The checks at the source and, behind them, the launch.
unfoldable pub depart : Zone → Order → PlayerId → Coord → ℕ → Pos → ℕ → ℕ → Drop → Option Drop
depart z order player source src target dst number d =
    let count = at d.counts src in
    let usable = sub32 count (compute_reserves_floor count (at z.reserves src)) in
    elim (index_of_id z.registry player) [
      | none ↦ some (refuse order (unknown_player player) d)
      | some p ↦
          if not (at d.owners src == p + 1)
          then some (refuse order (not_owner source) d)
          else if ltb usable (source_spend z.constants)
          then some (refuse order (no_source_troops source) d)
          else launch z src target dst (p + 1) number d
    ]

-- The checks of terrain and range.
unfoldable pub approach : Zone → PlayerId → Coord → Coord → Pos → Pos → ℕ → Drop → Option Drop
approach z player source target s t number d =
    let w = z.board.width in
    let order = paratroop player source target in
    if not (is_land_cell (get_elem? z.board.cells (index w t)))
    then some (refuse order (water_target target) d)
    else if ltb paratroop_max_range (chebyshev s t)
    then some (refuse order (paratroop_range source target (chebyshev s t)) d)
    else depart z order player source (index w s) t (index w t) number d

-- One order of the loop; other kinds are ignored.
unfoldable pub resolve_paratroop_order : Zone → ℕ → Order → Drop → Option Drop
resolve_paratroop_order z number (paratroop player source target) d =
    elim (in_bounds z.board.width z.board.height source) [
      | none ↦ some (refuse (paratroop player source target) (out_of_bounds source) d)
      | some s ↦ elim (in_bounds z.board.width z.board.height target) [
        | none ↦ some (refuse (paratroop player source target) (out_of_bounds target) d)
        | some t ↦ approach z player source target s t number d
      ]
    ]
resolve_paratroop_order z number (gun _ _ _) d = some d
resolve_paratroop_order z number (set_pipe _ _ _) d = some d
resolve_paratroop_order z number (clear_pipe _ _ _) d = some d
resolve_paratroop_order z number (set_pipes_exclusive _ _ _) d = some d
resolve_paratroop_order z number (clear_all_pipes _ _) d = some d
resolve_paratroop_order z number (set_reserves _ _ _) d = some d
resolve_paratroop_order z number (surrender _) d = some d

unfoldable pub resolve_paratroop_orders : Zone → ℕ → List Order → Drop → Option Drop
resolve_paratroop_orders z number [] d = some d
resolve_paratroop_orders z number (order ∷ orders) d =
    resolve_paratroop_order z number order d >>= resolve_paratroop_orders z (number + 1) orders

-- The new arrays, errors, successes and events; the state takes the first three.
unfoldable pub resolve_paratroop :
    WorldState
    → Board
    → EngineConstants
    → List Order
    → PlayerRegistry
    → ℕ
    → Option (WorldState × Drop)
resolve_paratroop s board c orders registry tick = do
  d ←
      resolve_paratroop_orders
        (record {
          board = board;
          constants = c;
          reserves = s.reserves_pct;
          registry = registry;
          tick = tick;
        })
        0 orders
        (record {
          counts = s.troop_counts;
          owners = s.troop_owners;
          pipes = s.pipe_masks;
          errors = [];
          successful = [];
          events = empty_tick_events;
        })
  some (record s { troop_counts = d.counts; troop_owners = d.owners; pipe_masks = d.pipes }, d)
