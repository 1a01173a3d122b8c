-- ===== src/Engine/Paratroop/Effects.antt =====
-- The effects of a paratroop order that passes its checks.
use europa_neo.Prelude.{
  ℕ, ◌+◌, ◌-◌, ◌^◌, ◌≤◌, ◌<◌, ◌≡◌, ◌≢◌, ◌⊎◌, refl, sym, ◌∙◌, arith, at, at-set_self, at-set_ne,
  length, List, min, ◌==◌, not, ◌&&◌, if◌then◌else◌, if-elim, u32, u8, write8, Returns, Returns-if,
  Returns-bind,
}
use europa_neo.Core.Types.{Pos}
use europa_neo.Engine.Registry.{count}
use europa_neo.Engine.Registry.Lookup.{require_id-registered}
use europa_neo.Engine.Attrition.{AttritionInput, resolve_two_way_attrition}
use europa_neo.Engine.Attrition.Laws.{resolve_two_way_attrition-Decides, attrition_bounds}
use europa_neo.Engine.Combat.Loop.{winner_of-Returns}
use europa_neo.Engine.Paratroop.{Drop, Zone, land_on_enemy, land_on_free, land_at}

-- What a landing of `m` troops of `attacker` makes of a cell with `count` troops of `owner`.
pub record Held (cap m attacker owner count new_count new_owner : ℕ) : Type 0 where
  pub free :
      (owner ≡ 0) ⊎ (owner ≡ attacker) → (new_count ≡ min (count + m) cap) × (new_owner ≡ attacker)
  pub won :
      owner ≢ 0
      → owner ≢ attacker
      → count < m
      → (new_count ≡ min (m - count) cap) × (new_owner ≡ attacker)
  pub lost :
      owner ≢ 0 → owner ≢ attacker → m < count → (new_count ≡ count - m) × (new_owner ≡ owner)
  pub even : owner ≢ 0 → owner ≢ attacker → m ≡ count → (new_count ≡ 0) × (new_owner ≡ 0)

pub record Lands (z : Zone) (dst attacker : ℕ) (d u : Drop) : Type 0 where
  pub target :
      Held z.constants.cell_capacity z.constants.paratroop_cost attacker
        (at d.owners dst)
        (at d.counts dst)
        (at u.counts dst)
        (at u.owners dst)
  pub same_pipes : u.pipes ≡ d.pipes
  pub same_records : (u.errors ≡ d.errors) × (u.successful ≡ d.successful)
  pub others : (i : ℕ) → i ≢ dst → (at u.counts i ≡ at d.counts i) × (at u.owners i ≡ at d.owners i)

module _ (z : Zone) (dst attacker : ℕ) (d : Drop) (few : attacker ≤ 4) (known : at d.owners dst ≤ 4)
    (small : z.constants.paratroop_cost < 2 ^ 30) (capped : z.constants.cell_capacity < 2 ^ 31)
    (within : at d.counts dst ≤ z.constants.cell_capacity) (inside : dst < length d.counts)
    (inside' : dst < length d.owners) where
  pub land_on_free-Lands :
      (at d.owners dst ≡ 0) ⊎ (at d.owners dst ≡ attacker)
      → Lands z dst attacker d (land_on_free z dst attacker d)
  unfolding land_on_free
  land_on_free-Lands h =
      let hit = λ (v : ℕ). at-set_self d.counts dst v inside in
      let owned = at-set_self d.owners dst (u8 attacker) inside' in
      record {
        target = record {
          free = λ _. (hit _ ∙ ground arith, owned ∙ omega arith);
          won = λ a b _. absurd (ground arith);
          lost = λ a b _. absurd (ground arith);
          even = λ a b _. absurd (ground arith);
        };
        same_pipes = refl;
        same_records = (refl, refl);
        others = λ i ne. (
          at-set_ne d.counts dst i _ (λ e. ne (sym e)),
          at-set_ne d.owners dst i _ (λ e. ne (sym e)),
        );
      }

  pub land_on_enemy-Lands :
      (target : Pos)
      → at d.owners dst ≢ 0
      → at d.owners dst ≢ attacker
      → 0 < attacker
      → attacker ≤ count z.registry
      → at d.owners dst ≤ count z.registry
      → Returns (Lands z dst attacker d) (land_on_enemy z target dst attacker (at d.owners dst) d)
  unfolding land_on_enemy
  land_on_enemy-Lands target held enemy pos_attacker known_attacker known_owner =
      let owner = at d.owners dst in
      let input : AttritionInput = record {
        attacker_owner = attacker;
        attacker_total = u32 z.constants.paratroop_cost;
        defender_owner = owner;
        defender_total = at d.counts dst;
        cell_capacity = u32 z.constants.cell_capacity;
      } in
      let out = resolve_two_way_attrition input in
      let decides = resolve_two_way_attrition-Decides input (omega arith) (omega arith) in
      let bounds =
        attrition_bounds (count z.registry) input known_attacker known_owner pos_attacker
          (omega arith) in
      let hit = at-set_self d.counts dst (u32 out.winner_count) inside in
      let four : out.winner_owner ≤ 4 = ground (arith, decides) in
      let owners =
        if out.winner_owner == owner then d.owners else write8 d.owners dst out.winner_owner in
      let now : at owners dst ≡ out.winner_owner =
        if-elim (λ (os : List ℕ). at os dst ≡ out.winner_owner) (out.winner_owner == owner)
          (λ holds. ground arith)
          (λ falls. at-set_self d.owners dst (u8 out.winner_owner) inside' ∙ omega arith) in
      let U = λ (_ : List ℕ). Unit {0} in
      let P = Lands z dst attacker d in
      Returns-bind U P (require_id-registered z.registry attacker pos_attacker known_attacker)
        (λ attacker_id _ _.
          Returns-bind U P (require_id-registered z.registry owner (omega arith) known_owner)
            (λ defender_id _ _.
              Returns-bind (λ _. Unit {0}) P
                (winner_of-Returns z.registry out.winner_owner bounds.0)
                (λ winner _ _. (
                  _,
                  refl,
                  record {
                    target = record {
                      free = λ h. absurd (ground arith);
                      won =
                          λ _ _ more. (ground (arith, decides, hit), ground (arith, decides, now));
                      lost =
                          λ _ _ less. (ground (arith, decides, hit), ground (arith, decides, now));
                      even =
                          λ _ _ same. (ground (arith, decides, hit), ground (arith, decides, now));
                    };
                    same_pipes = refl;
                    same_records = (refl, refl);
                    others = λ i ne. (
                      at-set_ne d.counts dst i _ (λ e. ne (sym e)),
                      if-elim (λ (os : List ℕ). at os i ≡ at d.owners i) (out.winner_owner == owner)
                          (λ _. refl) (λ _. at-set_ne d.owners dst i _ (λ e. ne (sym e))),
                    );
                  },
                ))))

  pub land_at-Lands :
      (target : Pos)
      → 0 < attacker
      → attacker ≤ count z.registry
      → at d.owners dst ≤ count z.registry
      → Returns (Lands z dst attacker d) (land_at z target dst attacker d)
  unfolding land_at
  land_at-Lands target h0 hk ho =
      Returns-if (Lands z dst attacker d)
        (not (at d.owners dst == 0) && not (at d.owners dst == attacker))
        (λ enemy. land_on_enemy-Lands target (ground arith) (ground arith) h0 hk ho)
        (λ free. (_, refl, land_on_free-Lands (ground arith)))
