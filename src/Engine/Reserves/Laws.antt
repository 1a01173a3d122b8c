-- ===== src/Engine/Reserves/Laws.antt =====
-- The reserve floors of decay.ts, gun.ts, paratroop.ts, validate.ts and of flow.ts and tick.ts.
use europa_neo.Prelude.{ℕ, ◌+◌, ◌-◌, ◌*◌, ◌≤◌, ◌<◌, ◌≡◌, ap, arith}
use europa_neo.Engine.Reserves.{compute_reserves_floor, reserve_floor}

-- The usable part and the reserved part make up the stack.
reserved-add-usable : (count pct : ℕ) → pct < 10 → count * (10 - pct) + count * pct ≡ 10 * count
reserved-add-usable count pct h =
    let whole : 10 - pct + pct ≡ 10 = omega arith in omega (arith, ap (λ (t : ℕ). count * t) whole)

-- For a percentage below 100, the floor that decay, guns and paratroopers compute by rounding the
-- usable part down is the floor that flow and tick compute by rounding the reserved part up, and it
-- is at most the count.
pub floor-eq-floor :
    (count pct : ℕ)
    → pct < 10
    → (compute_reserves_floor count pct ≡ reserve_floor count pct)
      × (compute_reserves_floor count pct ≤ count)
unfolding compute_reserves_floor reserve_floor
floor-eq-floor count pct h =
    let parts = reserved-add-usable count pct h in (ground arith, ground arith)

pub reserve_floor-le : (count pct : ℕ) → pct < 10 → reserve_floor count pct ≤ count
unfolding reserve_floor
reserve_floor-le count pct h = ground (arith, reserved-add-usable count pct h)

pub compute_reserves_floor-le : (count pct : ℕ) → compute_reserves_floor count pct ≤ count
unfolding compute_reserves_floor
compute_reserves_floor-le count pct = ground arith
