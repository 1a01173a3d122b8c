-- ===== src/Engine/Flow.antt =====
-- packages/engine/src/resolution/flow.ts: the pipes move troops. The tallies are always supplied, as
-- tick.ts does, and the scratch buffers are the model's fresh arrays.
pub mod Transfer
pub mod Laws
pub mod Reserve
use europa_neo.Prelude.{
  ℕ, zero, suc, ◌+◌, ◌-◌, ◌*◌, ◌/◌, ◌%◌, ltb, leb, min, ◌==◌, if◌then◌else◌, Bool, true, false, not,
  ◌&&◌, ◌||◌, Option, none, some, List, get_elem?, ℤ, sub_ℕ, at, u32, sub32, write32, write8,
  replicate, for_range,
}
use europa_neo.Core.Types.{
  Board, Cell, Pos, Direction, north, east, south, west, is_land, in_bounds, moved_coord, index,
}
use europa_neo.Core.FlowRate.{EngineConstants, flow_rate_for_delta}
use europa_neo.Engine.Types.{WorldState}
use europa_neo.Engine.Pipes.{has_pipe, popcount}
use europa_neo.Engine.Reserves.{reserve_floor}

-- The arrays that a flow phase writes.
pub record Buffers : Type 0 where
  pub counts : List ℕ
  pub owners : List ℕ
  pub tally : List ℕ
  pub committed : List ℕ

pub record TransferParams : Type 0 where
  pub cell : Pos
  pub direction : Direction
  pub src_owner : ℕ
  pub num_pipes : ℕ
  pub per_pipe : ℕ
  pub pipe_index : ℕ
  pub reserve_floor : ℕ

-- A count that `owner` added to cell `i`, in a tally of four slots for each cell.
unfoldable pub add_tally : ℕ → ℕ → ℕ → List ℕ → List ℕ
add_tally i owner v tally =
    let slot = i * 4 + (owner - 1) in
    if leb 1 owner && leb owner 4 then write32 tally slot (at tally slot + v) else tally

-- The deductable part of a source, against its current count.
unfoldable pub max_deductable : ℕ → ℕ → ℕ
max_deductable src_count pct =
    let floor = reserve_floor src_count pct in if ltb floor src_count then src_count - floor else 0

-- What a pipe would move, before the headroom and the source limit it.
unfoldable pub pipe_share : EngineConstants → TransferParams → ℤ → ℕ → ℕ
pipe_share c p delta src_count =
    let available = if ltb p.reserve_floor src_count then src_count - p.reserve_floor else 0 in
    let base = min p.per_pipe (available / (p.num_pipes - p.pipe_index)) in
    flow_rate_for_delta delta base c

-- The part of `transfer` after the committed flow is recorded.
unfoldable pub deliver : EngineConstants → ℕ → ℕ → ℕ → ℕ → ℕ → ℕ → Buffers → Buffers
deliver c src_owner src dst src_count deductable moved b =
    let cap = u32 c.cell_capacity in
    let current = at b.counts dst in
    let headroom = cap - current in
    let add = if ltb moved headroom then moved else headroom in
    let deduct = if ltb add deductable then add else deductable in
    if leb cap current then b else record b {
      counts = write32 (write32 b.counts dst (current + deduct)) src (sub32 src_count deduct);
      owners = write8 b.owners dst src_owner;
      tally = add_tally dst src_owner deduct b.tally;
    }

-- The part of `transfer` after both cells are found, with the slope between them.
unfoldable pub move_troops :
    EngineConstants → List ℕ → TransferParams → ℕ → ℕ → ℤ → Buffers → Buffers
move_troops c reserves p src dst delta b =
    let src_count = at b.counts src in
    let deductable = max_deductable src_count (at reserves src) in
    let moved = pipe_share c p delta src_count in
    let committed = if ltb moved deductable then moved else deductable in
    if src_count == 0
    then b
    else if deductable == 0
    then b
    else if moved == 0
    then b
    else deliver c p.src_owner src dst src_count deductable moved
        (record b { committed = add_tally dst p.src_owner committed b.committed })

abbrev pub onto_cell :
    EngineConstants
    → List ℕ
    → TransferParams
    → ℕ
    → ℕ
    → Option Cell
    → Option Cell
    → Buffers
    → Buffers
onto_cell c reserves p src dst (some s) (some d) b =
    if is_land d.terrain
    then move_troops c reserves p src dst (sub_ℕ d.elevation s.elevation) b
    else b
onto_cell c reserves p src dst none (some d) b = b
onto_cell c reserves p src dst s none b = b

unfoldable pub transfer : Board → EngineConstants → List ℕ → TransferParams → Buffers → Buffers
transfer board c reserves p b =
    let w = board.width in
    let src = index w p.cell in
    elim (in_bounds w w (moved_coord p.direction p.cell)) [
      | none ↦ b
      | some q ↦
          onto_cell c reserves p src (index w q) (get_elem? board.cells src)
            (get_elem? board.cells (index w q)) b
    ]

-- One `if ((mask & bit) !== 0)` block, with the index of the pipe that comes next.
unfoldable pub run_pipe :
    Board → EngineConstants → List ℕ → ℕ → TransferParams → Direction → ℕ × Buffers → ℕ × Buffers
run_pipe board c reserves mask p d (k, b) =
    if has_pipe mask d
    then (k + 1, transfer board c reserves (record p { direction = d; pipe_index = k }) b)
    else (k, b)

-- The four blocks, north first.
unfoldable pub run_pipes : Board → EngineConstants → List ℕ → ℕ → TransferParams → Buffers → Buffers
run_pipes board c reserves mask p b =
    (run_pipe board c reserves mask p west (
      run_pipe board c reserves mask p south
        (run_pipe board c reserves mask p east (run_pipe board c reserves mask p north (0, b))))).1

-- The body of the loop over the cells.
unfoldable pub flow_cell : WorldState → Board → EngineConstants → ℕ → Buffers → Buffers
flow_cell s board c idx b =
    let mask = at s.pipe_masks idx in
    let src_count = at s.troop_counts idx in
    let src_owner = at s.troop_owners idx in
    let num_pipes = popcount mask in
    let params : TransferParams = record {
      cell = (idx % board.width, idx / board.width);
      direction = north;
      src_owner = src_owner;
      num_pipes = num_pipes;
      per_pipe = c.flow_rate / num_pipes;
      pipe_index = 0;
      reserve_floor = reserve_floor src_count (at s.reserves_pct idx);
    } in
    if mask == 0
    then b
    else if src_count == 0 || src_owner == 0
    then b
    else run_pipes board c s.reserves_pct mask params b

unfoldable pub flow_buffers : WorldState → Board → EngineConstants → Buffers
flow_buffers s board c =
    let n = board.width * board.width in
    for_range n 0 (flow_cell s board c) (record {
      counts = s.troop_counts;
      owners = s.troop_owners;
      tally = replicate (n * 4) 0;
      committed = replicate (n * 4) 0;
    })

-- The new state; the tallies are `(flow_buffers …).tally` and `.committed`.
unfoldable pub resolve_flow : WorldState → Board → EngineConstants → WorldState
resolve_flow s board c =
    let b = flow_buffers s board c in record s { troop_counts = b.counts; troop_owners = b.owners }
