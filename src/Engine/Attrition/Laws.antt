-- ===== src/Engine/Attrition/Laws.antt =====
-- What `resolveTwoWayAttrition` decides.
use europa_neo.Prelude.{ℕ, ◌-◌, ◌^◌, ◌≤◌, ◌<◌, ◌≡◌, ◌⊎◌, arith, min}
use europa_neo.Engine.Attrition.{AttritionInput, resolve_two_way_attrition}

-- For totals below 2 ^ 32, exactly one of three cases holds. The attacker's total is the larger one,
-- it wins and keeps the difference of the totals, at most the capacity; or the defender's is, with the
-- same result for it; or the totals are equal, nobody wins and nothing is left. In each, both sides
-- lose the smaller total.
pub resolve_two_way_attrition-Decides :
    (i : AttritionInput)
    → i.attacker_total < 2 ^ 32
    → i.defender_total < 2 ^ 32
    → let out = resolve_two_way_attrition i in
      (out.damage ≡ min i.attacker_total i.defender_total)
      × ((i.defender_total < i.attacker_total)
            × (out.winner_owner ≡ i.attacker_owner)
            × (out.winner_count ≡ min (i.attacker_total - i.defender_total) i.cell_capacity)
          ⊎ (i.attacker_total < i.defender_total)
            × (out.winner_owner ≡ i.defender_owner)
            × (out.winner_count ≡ min (i.defender_total - i.attacker_total) i.cell_capacity)
          ⊎ (i.attacker_total ≡ i.defender_total) × (out.winner_owner ≡ 0) × (out.winner_count ≡ 0))
unfolding resolve_two_way_attrition
resolve_two_way_attrition-Decides i ha hd = ground arith

-- The sides exchanged, in a fight below 2 ^ 32, give the same owner, count and damage.
resolve_two_way_attrition_comm :
    (i : AttritionInput)
    → i.attacker_total < 2 ^ 32
    → i.defender_total < 2 ^ 32
    → resolve_two_way_attrition (record {
      attacker_owner = i.defender_owner;
      attacker_total = i.defender_total;
      defender_owner = i.attacker_owner;
      defender_total = i.attacker_total;
      cell_capacity = i.cell_capacity;
    })
      ≡ resolve_two_way_attrition i
unfolding resolve_two_way_attrition
resolve_two_way_attrition_comm i ha hd = ground arith

-- The bounds that an outcome keeps: a known owner, a count within the capacity, and an owner wherever
-- troops are left.
pub attrition_bounds :
    (k : ℕ) (i : AttritionInput)
    → i.attacker_owner ≤ k
    → i.defender_owner ≤ k
    → 0 < i.attacker_owner
    → 0 < i.defender_owner
    → let out = resolve_two_way_attrition i in
      (out.winner_owner ≤ k)
      × (out.winner_count ≤ i.cell_capacity)
      × (0 < out.winner_count → 0 < out.winner_owner)
unfolding resolve_two_way_attrition
attrition_bounds k i a d p q = ground arith
