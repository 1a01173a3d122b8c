-- ===== src/Engine/Combat/Laws.antt =====
-- What combat does to a valid state.
use europa_neo.Prelude.{
  ℕ, ◌+◌, ◌-◌, ◌*◌, ◌^◌, ◌<◌, ◌≡◌, refl, ◌∙◌, arith, at, List, for_range?_inv, ◌==◌, min,
  if◌then◌else◌, Upto-start, Returns, false,
}
use europa_neo.Core.Types.{Board}
use europa_neo.Core.FlowRate.{EngineConstants}
use europa_neo.Engine.Types.{WorldState, TickEvents, PlayerRegistry, empty_tick_events}
use europa_neo.Engine.Valid.{IsValid, Fits}
use europa_neo.Engine.Registry.{count}
use europa_neo.Engine.Attrition.{resolve_two_way_attrition}
use europa_neo.Engine.Combat.{
  Force, Field, duel, duel_outcome, is_contested, combat_cell, resolve_combat, slot,
}
use europa_neo.Engine.Combat.Loop.{outcome_at, Progress, IsField, combat_cell-Progress}

-- What combat returns from the state `s`.
pub record Fought (n cap : ℕ) (f : Field) (s : WorldState) (out : WorldState × TickEvents)
    : Type 0 where
  pub quiet :
      (i : ℕ)
      → i < n
      → is_contested f i ≡ false
      → (at out.0.troop_counts i ≡ at s.troop_counts i)
        × (at out.0.troop_owners i ≡ at s.troop_owners i)
  pub contested :
      (i : ℕ)
      → i < n
      → (at out.0.troop_counts i ≡ (outcome_at f s i).count)
        × (at out.0.troop_owners i ≡ (outcome_at f s i).owner)
  pub others :
      out.0 ≡ record s { troop_counts = out.0.troop_counts; troop_owners = out.0.troop_owners }
  pub valid : IsValid n (count f.registry) cap out.0

-- On a valid state of the board, with committed flow and garrisons of registered players only, combat
-- does not throw. A cell that is not contested keeps its troops; a contested one gets what its sides
-- leave (`outcome_at`); no other array changes, and the new state is valid.
pub resolve_combat-Fought :
    {n cap : ℕ} (s : WorldState) (board : Board) (c : EngineConstants) (tick : ℕ)
    (registry : PlayerRegistry) (committed pre_owners pre_counts : List ℕ)
    → let f : Field = record {
      width = board.width;
      constants = c;
      tick = tick;
      registry = registry;
      committed = committed;
      pre_owners = pre_owners;
      pre_counts = pre_counts;
    } in
      Fits (count registry) cap
      → IsField n cap f s
      → board.width * board.height ≡ n
      → Returns
          (Fought n cap f s)
          (resolve_combat s board c tick registry committed pre_owners pre_counts)
unfolding resolve_combat outcome_at
resolve_combat-Fought {n} {cap} s board c tick registry committed pre_owners pre_counts fits v
      area =
    let f : Field = record {
      width = board.width;
      constants = c;
      tick = tick;
      registry = registry;
      committed = committed;
      pre_owners = pre_owners;
      pre_counts = pre_counts;
    } in
    let run =
      for_range?_inv (Progress n (count registry) cap f s) (combat_cell f)
        (board.width * board.height) 0 n
        (record { counts = s.troop_counts; owners = s.troop_owners; events = empty_tick_events })
        (omega arith) (λ j t _ hi p. combat_cell-Progress f fits v j t hi p)
        (record { troops = v.valid.troops; counts = Upto-start; owners = Upto-start }) in
    let p = run.2 in
    (
      (record s { troop_counts = run.0.counts; troop_owners = run.0.owners }, run.0.events),
      rw run.1,
      record {
        quiet = λ i h q.
            (p.counts.done i h ∙ rw (q, outcome_at), p.owners.done i h ∙ rw (q, outcome_at));
        contested = λ i h. (p.counts.done i h, p.owners.done i h);
        others = refl;
        valid = record {
          troops = p.troops;
          masks_size = v.valid.masks_size;
          reserves_size = v.valid.reserves_size;
          cities_size = v.valid.cities_size;
          cities_known = v.valid.cities_known;
          reserves_bounded = v.valid.reserves_bounded;
        };
      },
    )

-- The attack of one side on a garrison, whatever the order of the two: the attacker has its committed
-- flow, the garrison its troops and its own committed flow. For totals below 2 ^ 32, the larger total
-- holds the cell with the difference, up to the capacity, and equal totals leave the cell empty.
pub duel-garrison :
    (f : Field) (idx : ℕ) (a b : Force)
    → let g = at f.pre_owners idx in
      let attacker = if a.owner == g then b.owner else a.owner in
      let attack = slot f idx attacker in
      let defence = at f.pre_counts idx + slot f idx g in
      let out = duel_outcome f (duel f idx a b) in
      0 < g
      → attack < 2 ^ 32
      → defence < 2 ^ 32
      → (defence < attack
          → (out.winner_owner ≡ attacker)
            × (out.winner_count ≡ min (attack - defence) f.constants.cell_capacity))
        × (attack < defence
            → (out.winner_owner ≡ g)
              × (out.winner_count ≡ min (defence - attack) f.constants.cell_capacity))
        × (attack ≡ defence → (out.winner_owner ≡ 0) × (out.winner_count ≡ 0))
unfolding duel duel_outcome resolve_two_way_attrition
duel-garrison f idx a b held ha hd = (ground arith, ground arith, ground arith)
