-- ===== src/Engine/Attrition.antt =====
-- packages/engine/src/resolution/attrition.ts: the fight of two sides over one cell.
pub mod Laws
use europa_neo.Prelude.{ℕ, ltb, min, if◌then◌else◌, u32, sub32}

pub record AttritionInput : Type 0 where
  pub attacker_owner : ℕ
  pub attacker_total : ℕ
  pub defender_owner : ℕ
  pub defender_total : ℕ
  pub cell_capacity : ℕ

pub record AttritionOutcome : Type 0 where
  pub winner_owner : ℕ
  pub winner_count : ℕ
  pub damage : ℕ

unfoldable pub resolve_two_way_attrition : AttritionInput → AttritionOutcome
resolve_two_way_attrition i =
    let damage = u32 (min i.attacker_total i.defender_total) in
    let attacker_remaining = sub32 i.attacker_total damage in
    let defender_remaining = sub32 i.defender_total damage in
    if ltb defender_remaining attacker_remaining
    then record {
      winner_owner = i.attacker_owner;
      winner_count = min attacker_remaining i.cell_capacity;
      damage = damage;
    }
    else if ltb attacker_remaining defender_remaining
    then record {
      winner_owner = i.defender_owner;
      winner_count = min defender_remaining i.cell_capacity;
      damage = damage;
    }
    else record { winner_owner = 0; winner_count = 0; damage = damage }
