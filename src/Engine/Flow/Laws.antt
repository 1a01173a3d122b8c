-- ===== src/Engine/Flow/Laws.antt =====
-- What the flow phase keeps.
use europa_neo.Prelude.{
  ℕ, zero, suc, ◌+◌, ◌-◌, ◌*◌, ◌/◌, ◌%◌, ◌≤◌, ◌<◌, ◌≡◌, refl, arith, at, sum, List, ◌==◌, ◌||◌,
  if-elim, for_range_inv, replicate, false,
}
use europa_neo.Core.Types.{Board, Direction, north, east, south, west}
use europa_neo.Core.FlowRate.{EngineConstants}
use europa_neo.Engine.Types.{WorldState}
use europa_neo.Engine.Valid.{IsValid, Fits, known-at}
use europa_neo.Engine.Pipes.{has_pipe}
use europa_neo.Engine.Flow.{
  Buffers, TransferParams, run_pipe, run_pipes, flow_cell, flow_buffers, resolve_flow,
}
use europa_neo.Engine.Flow.Transfer.{Flowing, is_land_at, transfer-Flowing}

at-replicate : (m i : ℕ) → at (replicate m 0) i ≡ 0
at-replicate zero i = refl
at-replicate (suc m) zero = refl
at-replicate (suc m) (suc i) = at-replicate m i

cell_column : (i w : ℕ) → i < w * w → i % w < w
cell_column i w h = grind arith

cell_row : (i w : ℕ) → i < w * w → i / w < w
cell_row i w h = grind arith

-- The phase as it is read: no troops appear or vanish, no cell of water gains any, and the state
-- stays valid with no other array changed.
pub record Flows (n k cap : ℕ) (board : Board) (s : WorldState) (out : WorldState) : Type 0 where
  pub conserved : sum out.troop_counts ≡ sum s.troop_counts
  pub water : (i : ℕ) → is_land_at board i ≡ false → at out.troop_counts i ≤ at s.troop_counts i
  pub others : out ≡ record s { troop_counts = out.troop_counts; troop_owners = out.troop_owners }
  pub valid : IsValid n k cap out

module _ {n k cap : ℕ} (fits : Fits k cap) (board : Board) (c : EngineConstants)
    (fit : c.cell_capacity ≤ cap) (area : board.width * board.width ≡ n) {s : WorldState} where
  run_pipe-Flowing :
      (reserves : List ℕ) (mask : ℕ) (p : TransferParams) (d : Direction) (r : ℕ × Buffers)
      → Flowing n k cap board s r.1
      → p.cell.0 < board.width
      → p.cell.1 < board.width
      → 0 < p.src_owner
      → p.src_owner ≤ k
      → Flowing n k cap board s (run_pipe board c reserves mask p d r).1
  unfolding run_pipe
  run_pipe-Flowing reserves mask p d (j, b) f hx hy pos_owner known =
      if-elim (λ (r : ℕ × Buffers). Flowing n k cap board s r.1) (has_pipe mask d)
        (λ on.
          transfer-Flowing fits board c fit area reserves
            (record p { direction = d; pipe_index = j }) b f hx hy pos_owner known)
        (λ off. f)

  run_pipes-Flowing :
      (reserves : List ℕ) (mask : ℕ) (p : TransferParams) (b : Buffers)
      → Flowing n k cap board s b
      → p.cell.0 < board.width
      → p.cell.1 < board.width
      → 0 < p.src_owner
      → p.src_owner ≤ k
      → Flowing n k cap board s (run_pipes board c reserves mask p b)
  unfolding run_pipes
  run_pipes-Flowing reserves mask p b f hx hy po ko =
      let step = λ (d : Direction) (r : ℕ × Buffers) (g : Flowing n k cap board s r.1).
        run_pipe-Flowing reserves mask p d r g hx hy po ko in
      step west _ (step south _ (step east _ (step north (0, b) f)))

  flow_cell-Flowing :
      (v : IsValid n k cap s) (idx : ℕ) (b : Buffers)
      → idx < n
      → Flowing n k cap board s b
      → Flowing n k cap board s (flow_cell s board c idx b)
  unfolding flow_cell
  flow_cell-Flowing v idx b h f =
      let P = Flowing n k cap board s in
      let inside : idx < board.width * board.width = omega arith in
      if-elim P (at s.pipe_masks idx == 0) (λ _. f)
        (λ _.
          if-elim P (at s.troop_counts idx == 0 || at s.troop_owners idx == 0) (λ _. f)
            (λ held.
              run_pipes-Flowing s.reserves_pct (at s.pipe_masks idx) _ b f
                (cell_column idx board.width inside) (cell_row idx board.width inside)
                (ground arith) (known-at fits v.troops idx)))

  pub flow_buffers-Flowing : IsValid n k cap s → Flowing n k cap board s (flow_buffers s board c)
  unfolding flow_buffers
  flow_buffers-Flowing v =
      for_range_inv (λ j. Flowing n k cap board s) (flow_cell s board c) (board.width * board.width)
        0 n _ (omega arith) (λ j b _ hi f. flow_cell-Flowing v j b hi f)
        (record {
          troops = v.troops;
          total = refl;
          committed_known =
              λ i p _ _ _. at-replicate (board.width * board.width * 4) (i * 4 + (p - 1));
          water = λ i _. omega arith;
        })

  -- On a valid state of a square board, with the cells' capacity within the state's, flow moves troops
  -- without making or losing any; no water cell gains any; only counts and owners change, and the new
  -- state is valid, so no cell is above the capacity.
  pub resolve_flow-Flows : IsValid n k cap s → Flows n k cap board s (resolve_flow s board c)
  unfolding resolve_flow
  resolve_flow-Flows v =
      let f = flow_buffers-Flowing v in
      record {
        conserved = f.total;
        water = f.water;
        others = refl;
        valid = record {
          troops = f.troops;
          masks_size = v.masks_size;
          reserves_size = v.reserves_size;
          cities_size = v.cities_size;
          cities_known = v.cities_known;
          reserves_bounded = v.reserves_bounded;
        };
      }
