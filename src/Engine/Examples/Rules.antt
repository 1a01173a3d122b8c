-- ===== src/Engine/Examples/Rules.antt =====
-- Fights, reserves, masks and commands of the small match.
use europa_neo.Prelude.{
  ℕ, ◌+◌, ◌-◌, ◌*◌, ◌≤◌, ◌<◌, ◌≡◌, ◌⊎◌, refl, arith, at, min, [], ◌∷◌, replicate, Returns, All,
  Memᴰ,
}
use europa_neo.Core.FlowRate.{engine_constants}
use europa_neo.Engine.Valid.{known-at}
use europa_neo.Engine.Reserves.{compute_reserves_floor, reserve_floor}
use europa_neo.Engine.Reserves.Laws.{floor-eq-floor}
use europa_neo.Engine.Attrition.{AttritionInput, resolve_two_way_attrition}
use europa_neo.Engine.Attrition.Laws.{resolve_two_way_attrition-Decides}
use europa_neo.Engine.Combat.{Field, Force, duel, duel_outcome, dominant, resolve_combat}
use europa_neo.Engine.Combat.Sides.{IsBeatenBy, dominant-IsBeatenBy}
use europa_neo.Engine.Combat.Loop.{IsField}
use europa_neo.Engine.Combat.Laws.{Fought, resolve_combat-Fought, duel-garrison}
use europa_neo.Engine.Registry.{create_player_registry}
use europa_neo.Engine.Registry.Creation.{IsCreated, create_player_registry-IsCreated}
use europa_neo.Engine.Examples.{
  ann, bob, two_players, small_board, two_stacks, two_fit, two_stacks-IsValid,
}

floor-eq-floor_example :
    (compute_reserves_floor 7 3 ≡ reserve_floor 7 3) × (compute_reserves_floor 7 3 ≤ 7)
floor-eq-floor_example = floor-eq-floor 7 3 (omega arith)

abbrev uneven : AttritionInput
uneven = record {
  attacker_owner = 1;
  attacker_total = 12;
  defender_owner = 2;
  defender_total = 5;
  cell_capacity = 30;
}

resolve_two_way_attrition-Decides_example :
    let out = resolve_two_way_attrition uneven in
    let a : ℕ = 12 in
    let d : ℕ = 5 in
    (out.damage ≡ min a d)
    × ((d < a) × (out.winner_owner ≡ 1) × (out.winner_count ≡ min (a - d) 30)
        ⊎ (a < d) × (out.winner_owner ≡ 2) × (out.winner_count ≡ min (d - a) 30)
        ⊎ (a ≡ d) × (out.winner_owner ≡ 0) × (out.winner_count ≡ 0))
resolve_two_way_attrition-Decides_example =
    resolve_two_way_attrition-Decides uneven (omega arith) (omega arith)

-- Ann committed 7 troops to Bob's cell, where he has 4.
abbrev attack_field : Field
attack_field = record {
  width = 2;
  constants = engine_constants;
  tick = 3;
  registry = two_players;
  committed = 0 ∷ 0 ∷ 0 ∷ 0 ∷ 7 ∷ 0 ∷ 0 ∷ 0 ∷ replicate 8 0;
  pre_owners = two_stacks.troop_owners;
  pre_counts = two_stacks.troop_counts;
}

slots_known : (i p : ℕ) → i < 4 → 2 < p → p ≤ 4 → at attack_field.committed (i * 4 + (p - 1)) ≡ 0
slots_known i p hi lo hi' = ground arith

attack_field-IsField : IsField 4 30 attack_field two_stacks
attack_field-IsField = record {
  fit = omega arith;
  committed_known = slots_known;
  garrisons_known = known-at two_fit two_stacks-IsValid.troops;
  valid = two_stacks-IsValid;
}

resolve_combat-Fought_example : Returns (Fought 4 30 attack_field two_stacks) (
    resolve_combat two_stacks small_board engine_constants 3 two_players attack_field.committed
      two_stacks.troop_owners two_stacks.troop_counts)
resolve_combat-Fought_example =
    resolve_combat-Fought two_stacks small_board engine_constants 3 two_players
      attack_field.committed two_stacks.troop_owners two_stacks.troop_counts two_fit
      attack_field-IsField refl

duel-garrison_example :
    let out =
      duel_outcome attack_field
        (duel attack_field 1 (record { owner = 1; count = 7 }) (record { owner = 2; count = 4 })) in
    let a : ℕ = 7 in
    let d : ℕ = 4 in
    (d < a → (out.winner_owner ≡ 1) × (out.winner_count ≡ min (a - d) 30))
    × (a < d → (out.winner_owner ≡ 2) × (out.winner_count ≡ min (d - a) 30))
    × (a ≡ d → (out.winner_owner ≡ 0) × (out.winner_count ≡ 0))
duel-garrison_example =
    duel-garrison attack_field 1 (record { owner = 1; count = 7 }) (record { owner = 2; count = 4 })
      (omega arith) (omega arith) (omega arith)

abbrev one : Force
one = record { owner = 1; count = 5 }

abbrev three : Force
three = record { owner = 3; count = 9 }

abbrev four : Force
four = record { owner = 4; count = 9 }

dominant-IsBeatenBy_example :
    Memᴰ (dominant one (four ∷ three ∷ [])) (one ∷ four ∷ three ∷ [])
    × All (IsBeatenBy (dominant one (four ∷ three ∷ []))) (one ∷ four ∷ three ∷ [])
dominant-IsBeatenBy_example = dominant-IsBeatenBy one (four ∷ three ∷ [])

create_player_registry-IsCreated_example :
    IsCreated (bob ∷ ann ∷ []) (create_player_registry (bob ∷ ann ∷ []))
create_player_registry-IsCreated_example = create_player_registry-IsCreated (bob ∷ ann ∷ [])
