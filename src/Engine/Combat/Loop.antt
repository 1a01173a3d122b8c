-- ===== src/Engine/Combat/Loop.antt =====
-- The loop of combat over the cells.
use europa_neo.Prelude.{
  ap, ℕ, ◌+◌, ◌≤◌, ◌<◌, ◌≡◌, refl, arith, at, List, [], ◌∷◌, All, ◌==◌, ltb, min, if◌then◌else◌, u8,
  u32, write32, write8, Upto, Upto-set, Upto-keep, Returns, Returns-if, Returns-bind,
}
use europa_neo.Engine.Types.{WorldState, TickEvents, PlayerRegistry}
use europa_neo.Engine.Valid.{AreTroops, IsValid, Fits, AreTroops-write}
use europa_neo.Engine.Registry.{count}
use europa_neo.Engine.Registry.Lookup.{require_id-registered}
use europa_neo.Engine.Attrition.Laws.{attrition_bounds}
use europa_neo.Engine.Flow.Transfer.{CountsKnown}
use europa_neo.Engine.Combat.{
  Force, Battle, Field, duel, duel_outcome, winner_of, fight_two, dominant, push_loser, push_losers,
  fight_many, fight, is_contested, sorted_participants, combat_cell,
}
use europa_neo.Engine.Combat.Sides.{IsKnown, sorted_participants-IsKnown, dominant-IsKnown}

-- What the sides of a cell leave on it.
unfoldable pub fight_outcome : Field → ℕ → List Force → Force → Force
fight_outcome f i [] old = old
fight_outcome f i (a ∷ []) old = old
fight_outcome f i (a ∷ b ∷ []) old =
    let out = duel_outcome f (duel f i a b) in
    record { owner = out.winner_owner; count = out.winner_count }
fight_outcome f i (a ∷ b ∷ c ∷ rest) old =
    let dom = dominant a (b ∷ c ∷ rest) in
    record { owner = dom.owner; count = min dom.count f.constants.cell_capacity }

-- What combat leaves on cell `i`: the result of its fight, if it is contested.
unfoldable pub outcome_at : Field → WorldState → ℕ → Force
outcome_at f s i =
    let old : Force = record { owner = at s.troop_owners i; count = at s.troop_counts i } in
    if is_contested f i then fight_outcome f i (sorted_participants f i) old else old

pub record Progress (n k cap : ℕ) (f : Field) (s : WorldState) (j : ℕ) (t : Battle) : Type 0 where
  pub troops : AreTroops n k cap t.counts t.owners
  pub counts : Upto (λ i. (outcome_at f s i).count) s.troop_counts t.counts j
  pub owners : Upto (λ i. (outcome_at f s i).owner) s.troop_owners t.owners j

pub winner_of-Returns :
    (r : PlayerRegistry) (o : ℕ) → o ≤ count r → Returns (λ _. Unit {0}) (winner_of r o)
unfolding winner_of
winner_of-Returns r o h =
    Returns-if (λ _. Unit {0}) (o == 0) (λ _. (_, refl, tt))
      (λ pos_owner.
        Returns-bind (λ _. Unit {0}) (λ _. Unit {0}) (require_id-registered r o (ground arith) h)
          (λ id _ _. (_, refl, tt)))

push_losers-Returns :
    (f : Field) (idx : ℕ) (dom : Force) (ps : List Force) (events : TickEvents)
    → IsKnown (count f.registry) dom
    → All (IsKnown (count f.registry)) ps
    → Returns (λ _. Unit {0}) (push_losers f idx dom ps events)
unfolding push_losers push_loser
push_losers-Returns f idx dom [] events d h = (events, refl, tt)
push_losers-Returns f idx dom (p ∷ ps) events d h =
    let U = λ (e : TickEvents). Unit {0} in
    Returns-bind U U
      (Returns-if U (p.owner == dom.owner) (λ _. (events, refl, tt))
        (λ _.
          Returns-bind (λ _. Unit {0}) U (require_id-registered f.registry dom.owner d.0 d.1)
            (λ _ _ _.
              Returns-bind (λ _. Unit {0}) U (require_id-registered f.registry p.owner h.0.0 h.0.1)
                (λ _ _ _. (_, refl, tt)))))
      (λ e _ _. push_losers-Returns f idx dom ps e d h.1)

-- Two sides and what is left are within the bounds.
duel_outcome-bounds :
    (k : ℕ) (f : Field) (idx : ℕ) (a b : Force)
    → IsKnown k a
    → IsKnown k b
    → at f.pre_owners idx ≤ k
    → let out = duel_outcome f (duel f idx a b) in
      (out.winner_owner ≤ k)
      × (out.winner_count ≤ f.constants.cell_capacity)
      × (0 < out.winner_count → 0 < out.winner_owner)
unfolding duel_outcome duel
duel_outcome-bounds k f idx a b ha hb g =
    attrition_bounds k _ (ground arith) (ground arith) (ground arith) (ground arith)

-- The field that the loop reads, over `n` cells.
pub record IsField (n cap : ℕ) (f : Field) (s : WorldState) : Type 0 where
  pub fit : f.constants.cell_capacity ≤ cap
  pub committed_known : CountsKnown n (count f.registry) f.committed
  pub garrisons_known : (i : ℕ) → at f.pre_owners i ≤ count f.registry
  pub valid : IsValid n (count f.registry) cap s

module _ {n cap : ℕ} (f : Field) (fits : Fits (count f.registry) cap) {s : WorldState}
    (v : IsField n cap f s) where
  abbrev k : ℕ
  k = count f.registry

  write-Progress :
      (j : ℕ) (t : Battle) (c o : ℕ) (events : TickEvents)
      → j < n
      → Progress n k cap f s j t
      → c ≤ cap
      → o ≤ k
      → (0 < c → 0 < o)
      → c ≡ (outcome_at f s j).count
      → o ≡ (outcome_at f s j).owner
      → Progress n k cap f s
          (j + 1)
          (record { counts = write32 t.counts j c; owners = write8 t.owners j o; events = events })
  write-Progress j t c o events h p hc ho held ec eo =
      let small = fits.small in
      let few = fits.few in
      record {
        troops = AreTroops-write fits p.troops j c o hc ho held;
        counts =
            Upto-set (u32 c) (omega (arith, v.valid.troops.counts_size)) (omega arith) p.counts;
        owners = Upto-set (u8 o) (omega (arith, v.valid.troops.owners_size)) (omega arith) p.owners;
      }

  keep-Progress :
      (j : ℕ) (t : Battle)
      → at s.troop_counts j ≡ (outcome_at f s j).count
      → at s.troop_owners j ≡ (outcome_at f s j).owner
      → Progress n k cap f s j t
      → Progress n k cap f s (j + 1) t
  keep-Progress j t ec eo p = record {
    troops = p.troops;
    counts = Upto-keep ec p.counts;
    owners = Upto-keep eo p.owners;
  }

  fight_two-Progress :
      (j : ℕ) (t : Battle) (a b : Force)
      → j < n
      → Progress n k cap f s j t
      → IsKnown k a
      → IsKnown k b
      → (duel_outcome f (duel f j a b)).winner_count ≡ (outcome_at f s j).count
      → (duel_outcome f (duel f j a b)).winner_owner ≡ (outcome_at f s j).owner
      → Returns (Progress n k cap f s (j + 1)) (fight_two f j a b t)
  unfolding fight_two
  fight_two-Progress j t a b h p ha hb ec eo =
      let U = λ (_ : List ℕ). Unit {0} in
      let P = Progress n k cap f s (j + 1) in
      let bounds = duel_outcome-bounds k f j a b ha hb (v.garrisons_known j) in
      let fit = v.fit in
      Returns-bind (λ _. Unit {0}) P (winner_of-Returns f.registry _ bounds.0)
        (λ winner _ _.
          Returns-bind U P
            (require_id-registered f.registry (if ltb a.owner b.owner then a.owner else b.owner)
              (ground arith) (ground arith))
            (λ low _ _.
              Returns-bind U P
                (require_id-registered f.registry (if ltb a.owner b.owner then b.owner else a.owner)
                  (ground arith) (ground arith))
                (λ high _ _. (
                  _,
                  refl,
                  write-Progress j t _ _ _ h p (omega (arith, bounds.1)) bounds.0 bounds.2 ec eo,
                ))))

  fight_many-Progress :
      (j : ℕ) (t : Battle) (a : Force) (rest : List Force)
      → j < n
      → Progress n k cap f s j t
      → IsKnown k a
      → All (IsKnown k) rest
      → min (dominant a rest).count f.constants.cell_capacity ≡ (outcome_at f s j).count
      → (dominant a rest).owner ≡ (outcome_at f s j).owner
      → Returns (Progress n k cap f s (j + 1)) (fight_many f j a rest t)
  unfolding fight_many
  fight_many-Progress j t a rest h p ha hr ec eo =
      let dom = dominant-IsKnown k a rest ha hr in
      let fit = v.fit in
      Returns-bind (λ _. Unit {0}) (Progress n k cap f s (j + 1))
        (push_losers-Returns f j (dominant a rest) (a ∷ rest) t.events dom (ha, hr))
        (λ events _ _.
          (_, refl, write-Progress j t _ _ events h p (omega arith) dom.1 (λ _. dom.0) ec eo))

  fight-Progress :
      (j : ℕ) (t : Battle) (ps : List Force)
      → j < n
      → Progress n k cap f s j t
      → All (IsKnown k) ps
      → (let old : Force = record { owner = at s.troop_owners j; count = at s.troop_counts j } in
          fight_outcome f j ps old ≡ outcome_at f s j)
      → Returns (Progress n k cap f s (j + 1)) (fight f j ps t)
  unfolding fight fight_outcome
  fight-Progress j t [] h p known e =
      (t, refl, keep-Progress j t (ap (λ (o : Force). o.count) e) (ap (λ (o : Force). o.owner) e) p)
  fight-Progress j t (a ∷ []) h p known e =
      (t, refl, keep-Progress j t (ap (λ (o : Force). o.count) e) (ap (λ (o : Force). o.owner) e) p)
  fight-Progress j t (a ∷ b ∷ []) h p known e =
      fight_two-Progress j t a b h p known.0 known.1.0 (ap (λ (o : Force). o.count) e)
        (ap (λ (o : Force). o.owner) e)
  fight-Progress j t (a ∷ b ∷ c ∷ rest) h p known e =
      fight_many-Progress j t a (b ∷ c ∷ rest) h p known.0 known.1 (ap (λ (o : Force). o.count) e)
        (ap (λ (o : Force). o.owner) e)

  pub combat_cell-Progress :
      (j : ℕ) (t : Battle)
      → j < n
      → Progress n k cap f s j t
      → Returns (Progress n k cap f s (j + 1)) (combat_cell f j t)
  unfolding combat_cell outcome_at
  combat_cell-Progress j t h p =
      Returns-if (Progress n k cap f s (j + 1)) (is_contested f j)
        (λ contested.
          fight-Progress j t (sorted_participants f j) h p
            (sorted_participants-IsKnown k f j v.committed_known (v.garrisons_known j) h)
            (rw contested))
        (λ quiet. (t, refl, keep-Progress j t (rw quiet) (rw quiet) p))
