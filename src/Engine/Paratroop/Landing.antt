-- ===== src/Engine/Paratroop/Landing.antt =====
-- What a landing does to a valid state.
use europa_neo.Prelude.{
  ℕ, ◌≤◌, ◌<◌, ◌≡◌, refl, ◌∙◌, arith, at, List, length, length-set, ◌==◌, not, ◌&&◌, if-elim, u8,
  u32, write32, Returns, Returns-if, Returns-bind,
}
use europa_neo.Core.Types.{Pos}
use europa_neo.Engine.Registry.{count}
use europa_neo.Engine.Registry.Lookup.{require_id-registered}
use europa_neo.Engine.Valid.{
  AreTroops, Fits, capped-at, known-at, AreTroops-write, AreTroops-lower, AreTroops-count,
}
use europa_neo.Engine.Attrition.{AttritionInput, resolve_two_way_attrition}
use europa_neo.Engine.Attrition.Laws.{attrition_bounds}
use europa_neo.Engine.Combat.Loop.{winner_of-Returns}
use europa_neo.Engine.Paratroop.{
  Drop, Zone, land_on_enemy, land_on_free, land_at, spend, source_spend, launch,
}

-- Valid arrays of a drop over `n` cells.
pub record IsDrop (n k cap : ℕ) (d : Drop) : Type 0 where
  pub troops : AreTroops n k cap d.counts d.owners
  pub pipes_size : length d.pipes ≡ n

-- The same for the players of a zone.
abbrev pub IsDropIn : ℕ → ℕ → Zone → Drop → Type 0
IsDropIn n cap z = IsDrop n (count z.registry) cap

module _ {n cap : ℕ} (z : Zone) (fits : Fits (count z.registry) cap)
    (fit : z.constants.cell_capacity ≤ cap) where
  spend-IsDrop :
      (src c : ℕ) (d : Drop)
      → IsDropIn n cap z d
      → c ≤ at d.counts src
      → IsDropIn n cap z (spend src c d)
  unfolding spend
  spend-IsDrop src c d v h =
      let bound = capped-at fits v.troops src in
      record {
        troops =
            if-elim (λ owners. AreTroops n (count z.registry) cap (write32 d.counts src c) owners)
              (c == 0)
              (λ gone.
                AreTroops-write fits v.troops src c 0 (omega arith) (omega arith) (ground arith))
              (λ left. AreTroops-lower fits v.troops src c h);
        pipes_size = v.pipes_size;
      }

  land_on_free-IsDrop :
      (dst attacker : ℕ) (d : Drop)
      → IsDropIn n cap z d
      → 0 < attacker
      → attacker ≤ count z.registry
      → IsDropIn n cap z (land_on_free z dst attacker d)
  unfolding land_on_free
  land_on_free-IsDrop dst attacker d v h0 hk = record {
    troops = AreTroops-write fits v.troops dst _ attacker (ground arith) hk (λ _. h0);
    pipes_size = v.pipes_size;
  }

  land_on_enemy-IsDrop :
      (target : Pos) (dst attacker owner : ℕ) (d : Drop)
      → IsDropIn n cap z d
      → 0 < attacker
      → attacker ≤ count z.registry
      → 0 < owner
      → owner ≡ at d.owners dst
      → Returns (IsDropIn n cap z) (land_on_enemy z target dst attacker owner d)
  unfolding land_on_enemy
  land_on_enemy-IsDrop target dst attacker owner d v h0 hk o0 eo =
      let known = known-at fits v.troops dst in
      let input : AttritionInput = record {
        attacker_owner = attacker;
        attacker_total = u32 z.constants.paratroop_cost;
        defender_owner = owner;
        defender_total = at d.counts dst;
        cell_capacity = u32 z.constants.cell_capacity;
      } in
      let out = resolve_two_way_attrition input in
      let bounds = attrition_bounds (count z.registry) input hk (omega arith) h0 o0 in
      let U = λ (_ : List ℕ). Unit {0} in
      let P = IsDropIn n cap z in
      Returns-bind U P (require_id-registered z.registry attacker h0 hk) (λ attacker_id _ _.
        Returns-bind U P (require_id-registered z.registry owner o0 (omega arith))
          (λ defender_id _ _.
            Returns-bind (λ _. Unit {0}) P (winner_of-Returns z.registry out.winner_owner bounds.0)
              (λ winner _ _. (
                _,
                refl,
                record {
                  troops =
                      if-elim
                        (λ owners.
                          AreTroops n (count z.registry) cap (write32 d.counts dst out.winner_count)
                            owners)
                        (out.winner_owner == owner)
                        (λ holds.
                          AreTroops-count fits v.troops dst out.winner_count
                            (omega (arith, bounds.1)) (omega arith))
                        (λ falls.
                          AreTroops-write fits v.troops dst out.winner_count out.winner_owner
                            (omega (arith, bounds.1)) bounds.0 bounds.2);
                  pipes_size = v.pipes_size;
                },
              ))))

  land_at-IsDrop :
      (target : Pos) (dst attacker : ℕ) (d : Drop)
      → IsDropIn n cap z d
      → 0 < attacker
      → attacker ≤ count z.registry
      → Returns (IsDropIn n cap z) (land_at z target dst attacker d)
  unfolding land_at
  land_at-IsDrop target dst attacker d v h0 hk =
      Returns-if (IsDropIn n cap z)
        (not (at d.owners dst == 0) && not (at d.owners dst == attacker))
        (λ enemy.
          land_on_enemy-IsDrop target dst attacker (at d.owners dst) d v h0 hk (ground arith) refl)
        (λ free. (_, refl, land_on_free-IsDrop dst attacker d v h0 hk))

  pub launch-IsDrop :
      (src : ℕ) (target : Pos) (dst attacker number : ℕ) (d : Drop)
      → IsDropIn n cap z d
      → 0 < attacker
      → attacker ≤ count z.registry
      → source_spend z.constants ≤ at d.counts src
      → Returns (IsDropIn n cap z) (launch z src target dst attacker number d)
  unfolding launch
  launch-IsDrop src target dst attacker number d v h0 hk pays =
      let bound = capped-at fits v.troops src in
      let small = fits.small in
      Returns-bind (IsDropIn n cap z) (IsDropIn n cap z)
        (land_at-IsDrop target dst attacker _ (spend-IsDrop src _ d v (omega arith)) h0 hk)
        (λ landed _ w. (
          _,
          refl,
          record {
            troops = w.troops;
            pipes_size = length-set landed.pipes dst (u8 0) ∙ w.pipes_size;
          },
        ))
