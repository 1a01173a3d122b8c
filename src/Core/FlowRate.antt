-- ===== src/Core/FlowRate.antt =====
-- packages/core/src/flow-rate.ts: the rule constants, and the rate of a pipe by its slope.
use europa_neo.Prelude.{ℕ, zero, suc, ◌+◌, ◌-◌, ◌*◌, min, ℤ, pos, negsuc}

pub record EngineConstants : Type 0 where
  pub flow_rate : ℕ
  pub flow_downhill_step : ℕ
  pub flow_uphill_step : ℕ
  pub flow_slope_delta_cap : ℕ
  pub production_rate : ℕ
  pub city_capacity : ℕ
  pub cell_capacity : ℕ
  pub decay_per_tick : ℕ
  pub paratroop_cost : ℕ
  pub gun_cost : ℕ
  pub gun_damage : ℕ
  pub visibility_radius_default : ℕ

abbrev pub engine_constants : EngineConstants
engine_constants = record {
  flow_rate = 12;
  flow_downhill_step = 1;
  flow_uphill_step = 1;
  flow_slope_delta_cap = 5;
  production_rate = 1;
  city_capacity = 30;
  cell_capacity = 30;
  decay_per_tick = 1;
  paratroop_cost = 10;
  gun_cost = 5;
  gun_damage = 2;
  visibility_radius_default = 4;
}

-- `delta` is the destination's elevation less the source's. `Math.max(0, a - b)` is `-` on ℕ.
unfoldable pub flow_rate_for_delta : ℤ → ℕ → EngineConstants → ℕ
flow_rate_for_delta (negsuc n) per_pipe c =
    per_pipe + c.flow_downhill_step * min (suc n) c.flow_slope_delta_cap
flow_rate_for_delta (pos zero) per_pipe c = per_pipe
flow_rate_for_delta (pos (suc n)) per_pipe c = per_pipe - c.flow_uphill_step * suc n
