-- ===== src/Engine/Reserves.antt =====
-- The two reserve floors: `computeReservesFloor` of decay.ts, gun.ts, paratroop.ts and validate.ts,
-- and `Math.ceil((count * reservesPct) / 10)` of flow.ts and tick.ts.
pub mod Laws
use europa_neo.Prelude.{ℕ, ◌+◌, ◌-◌, ◌*◌, ◌/◌, ◌≤◌, ◌<◌, ◌≡◌, leb, ltb, ◌==◌, if◌then◌else◌, arith}

unfoldable pub compute_reserves_floor : ℕ → ℕ → ℕ
compute_reserves_floor count reserves =
    if leb count 0
    then 0
    else if leb reserves 0
    then 0
    else if leb 10 reserves
    then count
    else count - count * (10 - reserves) / 10

unfoldable pub reserve_floor : ℕ → ℕ → ℕ
reserve_floor count pct = if ltb 0 pct then (count * pct + 9) / 10 else 0
