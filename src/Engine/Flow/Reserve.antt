-- ===== src/Engine/Flow/Reserve.antt =====
-- What a pipe leaves of the reserves of its source.
use europa_neo.Prelude.{
  ℕ, ◌+◌, ◌-◌, ◌^◌, ◌≤◌, ◌<◌, ◌≡◌, arith, at, at-set_self, length, length-set, set, List, ltb, leb,
  ◌==◌, if◌then◌else◌, if-elim, negsuc, u32, sub32,
}
use europa_neo.Core.FlowRate.{EngineConstants, engine_constants, flow_rate_for_delta}
use europa_neo.Engine.Flow.{
  Buffers, TransferParams, max_deductable, pipe_share, deliver, move_troops,
}
use europa_neo.Engine.Flow.Transfer.{max_deductable-le}

share_downhill :
    (p : TransferParams) (n count : ℕ) → 0 < pipe_share engine_constants p (negsuc n) count
unfolding pipe_share flow_rate_for_delta
share_downhill p n count = omega arith

deliver-source :
    (c : EngineConstants) (owner src dst deductable moved : ℕ) (b : Buffers)
    → 0 < moved
    → 0 < deductable
    → deductable ≤ at b.counts src
    → at b.counts src < 2 ^ 32
    → at b.counts dst < u32 c.cell_capacity
    → src < length b.counts
    → at (deliver c owner src dst (at b.counts src) deductable moved b).counts src < at b.counts src
unfolding deliver
deliver-source c owner src dst deductable moved b hm hd le lt room inside =
    let headroom = u32 c.cell_capacity - at b.counts dst in
    let add = if ltb moved headroom then moved else headroom in
    let deduct = if ltb add deductable then add else deductable in
    let written =
      at-set_self (set b.counts dst (u32 (at b.counts dst + deduct))) src
        (u32 (sub32 (at b.counts src) deduct))
        (omega (arith, length-set b.counts dst (u32 (at b.counts dst + deduct)))) in
    if-elim (λ (u : Buffers). at u.counts src < at b.counts src)
      (leb (u32 c.cell_capacity) (at b.counts dst)) (λ full. absurd (ground arith))
      (λ open'. ground (arith, written))

-- A pipe that runs downhill takes from a source that stands at its reserve floor of this tick: with
-- room at the target, and a part of the current stack above the reserve percentage of that stack, the
-- source ends below the floor.
pub move_troops-below_reserve :
    (reserves : List ℕ) (p : TransferParams) (src dst n : ℕ) (b : Buffers)
    → at b.counts src ≡ p.reserve_floor
    → 0 < max_deductable (at b.counts src) (at reserves src)
    → at b.counts src < 2 ^ 32
    → at b.counts dst < engine_constants.cell_capacity
    → src < length b.counts
    → at (move_troops engine_constants reserves p src dst (negsuc n) b).counts src < p.reserve_floor
unfolding move_troops
move_troops-below_reserve reserves p src dst n b floor part lt room inside =
    let count = at b.counts src in
    let P = λ (u : Buffers). at u.counts src < p.reserve_floor in
    let moved = share_downhill p n count in
    let low = max_deductable-le count (at reserves src) in
    if-elim P (count == 0) (λ empty. absurd (ground arith))
      (λ held.
        if-elim P (max_deductable count (at reserves src) == 0) (λ none_left. absurd (ground arith))
          (λ some_left.
            if-elim P (pipe_share engine_constants p (negsuc n) count == 0)
              (λ stalled. absurd (ground arith))
              (λ flows. omega (
                arith,
                deliver-source engine_constants p.src_owner src dst
                    (max_deductable count (at reserves src))
                    (pipe_share engine_constants p (negsuc n) count) _ moved part low lt room
                    inside,
              ))))
