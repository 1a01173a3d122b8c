-- ===== src/Engine/Paratroop/Launches.antt =====
-- What a launch does to its two cells.
use europa_neo.Prelude.{
  ℕ, ◌+◌, ◌-◌, ◌*◌, ◌^◌, ◌≤◌, ◌<◌, ◌≡◌, ◌≢◌, ◌⊎◌, inl, inr, refl, sym, subst, ap, ◌∙◌, arith, at,
  at-set_self, at-set_ne, set, length, length-set, List, [], ◌∷◌, ◌++◌, min, Bool-cases, ==→≡, ◌==◌,
  if◌then◌else◌, if-elim, u32, sub32, Returns, Returns-bind,
}
use europa_neo.Core.Types.{Pos}
use europa_neo.Engine.Valid.{Fits, capped-at, known-at}
use europa_neo.Engine.Registry.{count}
use europa_neo.Engine.Paratroop.{Drop, Zone, spend, source_spend, launch}
use europa_neo.Engine.Paratroop.Landing.{IsDropIn}
use europa_neo.Engine.Paratroop.Effects.{Held, Lands, land_at-Lands}

-- The two cells of a launch, if they differ.
pub record IsFlight (z : Zone) (src dst attacker : ℕ) (d u : Drop) : Type 0 where
  pub paid : at u.counts src + 2 * z.constants.paratroop_cost ≡ at d.counts src
  pub emptied : at u.owners src ≡ (if at u.counts src == 0 then 0 else at d.owners src)
  pub target :
      Held z.constants.cell_capacity z.constants.paratroop_cost attacker
        (at d.owners dst)
        (at d.counts dst)
        (at u.counts dst)
        (at u.owners dst)

-- The cell of a launch onto itself: it pays twice the cost and gains the paratroopers.
pub record IsReturn (z : Zone) (src attacker : ℕ) (d u : Drop) : Type 0 where
  pub left :
      at u.counts src
      ≡ min
          (at d.counts src - 2 * z.constants.paratroop_cost + z.constants.paratroop_cost)
          z.constants.cell_capacity
  pub owner : at u.owners src ≡ attacker

-- The effects of an accepted order.
pub record Launched (z : Zone) (src dst attacker number : ℕ) (d u : Drop) : Type 0 where
  pub cells :
      ((src ≢ dst) × IsFlight z src dst attacker d u) ⊎ ((src ≡ dst) × IsReturn z src attacker d u)
  pub others :
      (i : ℕ)
      → i ≢ src
      → i ≢ dst
      → (at u.counts i ≡ at d.counts i) × (at u.owners i ≡ at d.owners i)
  pub pipes : u.pipes ≡ set d.pipes dst 0
  pub recorded : (u.errors ≡ d.errors) × (u.successful ≡ d.successful ++ number ∷ [])

-- The source after it has paid.
record IsSpent (src left : ℕ) (d e : Drop) : Type 0 where
  count : at e.counts src ≡ left
  owner : at e.owners src ≡ (if left == 0 then 0 else at d.owners src)
  elsewhere : (i : ℕ) → i ≢ src → (at e.counts i ≡ at d.counts i) × (at e.owners i ≡ at d.owners i)
  sizes : (length e.counts ≡ length d.counts) × (length e.owners ≡ length d.owners)

spend-IsSpent :
    (src left : ℕ) (d : Drop)
    → src < length d.counts
    → src < length d.owners
    → left < 2 ^ 32
    → IsSpent src left d (spend src left d)
unfolding spend
spend-IsSpent src left d h h' small = record {
  count = at-set_self d.counts src (u32 left) h ∙ omega arith;
  owner =
      if-elim (λ (os : List ℕ). at os src ≡ (if left == 0 then 0 else at d.owners src)) (left == 0)
        (λ gone. at-set_self d.owners src 0 h' ∙ ground arith) (λ some_left. ground arith);
  elsewhere = λ i ne. (
    at-set_ne d.counts src i (u32 left) (λ q. ne (sym q)),
    if-elim (λ (os : List ℕ). at os i ≡ at d.owners i) (left == 0)
        (λ _. at-set_ne d.owners src i 0 (λ q. ne (sym q))) (λ _. refl),
  );
  sizes = (
    length-set d.counts src (u32 left),
    if-elim (λ (os : List ℕ). length os ≡ length d.owners) (left == 0)
        (λ _. length-set d.owners src 0) (λ _. refl),
  );
}

module _ (z : Zone) (src dst attacker left : ℕ) (d e u : Drop) (s : IsSpent src left d e)
    (pays : left + 2 * z.constants.paratroop_cost ≡ at d.counts src)
    (owned : at d.owners src ≡ attacker)
    (landed : Held z.constants.cell_capacity z.constants.paratroop_cost attacker
      (at e.owners dst)
      (at e.counts dst)
      (at u.counts dst)
      (at u.owners dst))
    (others : (i : ℕ)
      → i ≢ dst
      → (at u.counts i ≡ at e.counts i) × (at u.owners i ≡ at e.owners i)) where
  IsSpent-cells :
      ((src ≢ dst) × IsFlight z src dst attacker d u) ⊎ ((src ≡ dst) × IsReturn z src attacker d u)
  IsSpent-cells = elim (Bool-cases (src == dst)) [
    | inr far ↦
        let ne : src ≢ dst = λ e. absurd (ground arith) in
        let near = others src ne in
        let before = s.elsewhere dst (λ e. ne (sym e)) in
        let Target = λ (owner count : ℕ).
          Held z.constants.cell_capacity z.constants.paratroop_cost attacker owner count
            (at u.counts dst) (at u.owners dst) in
        inl (
          ne,
          record {
            paid = omega (arith, near.0, s.count);
            emptied = near.1 ∙ s.owner ∙ ground (arith, near.0, s.count);
            target =
                subst (λ (owner : ℕ). Target owner (at d.counts dst)) before.1
                  (subst (λ (count : ℕ). Target (at e.owners dst) count) before.0 landed);
          },
        )
    | inl same ↦
        let q = ==→≡ src dst same in
        let empty_or_own : (at e.owners dst ≡ 0) ⊎ (at e.owners dst ≡ attacker) =
          elim (Bool-cases (left == 0)) [
            | inl gone ↦ inl (ground (arith, s.owner, q))
            | inr stays ↦ inr (ground (arith, s.owner, owned, q))
          ] in
        let free = landed.free empty_or_own in
        inr (
          q,
          record { left = ground (arith, free.0, s.count, q); owner = ground (arith, free.1, q) },
        )
  ]

pub launch-Launched :
    {n cap : ℕ} (z : Zone) (fits : Fits (count z.registry) cap)
    (fit : z.constants.cell_capacity ≡ cap) (small : z.constants.paratroop_cost < 2 ^ 30) (src : ℕ)
    (target : Pos) (dst attacker number : ℕ) (d : Drop)
    → IsDropIn n cap z d
    → src < n
    → dst < n
    → at d.owners src ≡ attacker
    → 0 < attacker
    → attacker ≤ count z.registry
    → 2 * z.constants.paratroop_cost ≤ at d.counts src
    → Returns (Launched z src dst attacker number d) (launch z src target dst attacker number d)
unfolding launch source_spend spend
launch-Launched z fits fit small src target dst attacker number d v hs ht owned h0 hk pays =
    let left = sub32 (at d.counts src) (source_spend z.constants) in
    let e = spend src left d in
    let low = fits.small in
    let few = fits.few in
    let count_src = capped-at fits v.troops src in
    let count_dst = capped-at fits v.troops dst in
    let known_dst = known-at fits v.troops dst in
    let s =
      spend-IsSpent src left d (omega (arith, v.troops.counts_size))
        (omega (arith, v.troops.owners_size)) (omega arith) in
    let remains : left + 2 * z.constants.paratroop_cost ≡ at d.counts src = omega arith in
    let (count_e, owner_e) : (at e.counts dst ≤ z.constants.cell_capacity)
        × (at e.owners dst ≤ count z.registry) =
      elim (Bool-cases (dst == src)) [
        | inl same ↦
            let q = ==→≡ dst src same in (ground (arith, s.count, q), ground (arith, s.owner, q))
        | inr far ↦
            let near = s.elsewhere dst (λ q. absurd (ground arith)) in
            (omega (arith, near.0), omega (arith, near.1))
      ] in
    Returns-bind (Lands z dst attacker e) (Launched z src dst attacker number d)
      (land_at-Lands z dst attacker e (omega arith) (omega (arith, owner_e)) small (omega arith)
        count_e (omega (arith, s.sizes.0, v.troops.counts_size))
        (omega (arith, s.sizes.1, v.troops.owners_size)) target h0 hk owner_e)
      (λ u _ l. (
        _,
        refl,
        record {
          cells = IsSpent-cells z src dst attacker left d e _ s remains owned l.target l.others;
          others = λ i not_src not_dst.
              let far = l.others i not_dst in
              let near = s.elsewhere i not_src in (far.0 ∙ near.0, far.1 ∙ near.1);
          pipes = ap (λ (p : List ℕ). set p dst 0) l.same_pipes;
          recorded = (l.same_records.0, ap (λ (ns : List ℕ). ns ++ number ∷ []) l.same_records.1);
        },
      ))
