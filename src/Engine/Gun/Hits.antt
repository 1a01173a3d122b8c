-- ===== src/Engine/Gun/Hits.antt =====
-- What a shot that is fired does to the cells.
use europa_neo.Prelude.{
  ap, ℕ, ◌+◌, ◌-◌, ◌^◌, ◌≤◌, ◌<◌, ◌≡◌, ◌≢◌, ◌⊎◌, inl, inr, refl, sym, ◌∙◌, arith, at, List, [], ◌∷◌,
  ◌++◌, length, min, ◌&&◌, ◌==◌, ltb, if◌then◌else◌, if-elim, u32, sub32, at-set_self, at-set_ne,
  Bool-cases, ==→≡, length-set,
}
use europa_neo.Core.FlowRate.{EngineConstants}
use europa_neo.Engine.Gun.{Volley, lower, hit}

-- A cell lowered to `count`: it loses its owner if it is emptied, and no other cell changes.
record Lowered (i count : ℕ) (v u : Volley) : Type 0 where
  here : at u.counts i ≡ count
  owner : at u.owners i ≡ (if count == 0 then 0 else at v.owners i)
  elsewhere : (j : ℕ) → j ≢ i → (at u.counts j ≡ at v.counts j) × (at u.owners j ≡ at v.owners j)

lower-Lowered :
    (i count : ℕ) (v : Volley)
    → i < length v.counts
    → i < length v.owners
    → count < 2 ^ 32
    → Lowered i count v (lower i count v)
lower-Lowered i count v h h' small = record {
  here = at-set_self v.counts i (u32 count) h ∙ omega arith;
  owner =
      if-elim (λ (os : List ℕ). at os i ≡ (if count == 0 then 0 else at v.owners i)) (count == 0)
        (λ gone. at-set_self v.owners i 0 h' ∙ ground arith) (λ left. ground arith);
  elsewhere = λ j ne. (
    at-set_ne v.counts i j (u32 count) (λ e. ne (sym e)),
    if-elim (λ (os : List ℕ). at os j ≡ at v.owners j) (count == 0)
        (λ gone. at-set_ne v.owners i j 0 (λ e. ne (sym e))) (λ left. refl),
  );
}

-- The damage at a cell: a stack that it destroys leaves no owner, an empty cell keeps what it has.
record Hurt (damage i : ℕ) (v u : Volley) : Type 0 where
  here : at u.counts i ≡ at v.counts i - min damage (at v.counts i)
  owner : at u.owners i ≡ (if ltb 0 (at v.counts i) && at u.counts i == 0 then 0 else at v.owners i)
  elsewhere : (j : ℕ) → j ≢ i → (at u.counts j ≡ at v.counts j) × (at u.owners j ≡ at v.owners j)

hit-Hurt :
    (c : EngineConstants) (i : ℕ) (v : Volley)
    → i < length v.counts
    → i < length v.owners
    → c.gun_damage < 2 ^ 32
    → at v.counts i < 2 ^ 32
    → Hurt c.gun_damage i v (hit c i v)
unfolding hit
hit-Hurt c i v h h' small bound =
    let damage =
      if ltb (u32 c.gun_damage) (at v.counts i) then u32 c.gun_damage else at v.counts i in
    let left = sub32 (at v.counts i) damage in
    if-elim (Hurt c.gun_damage i v) (ltb 0 (at v.counts i))
      (λ held.
        let l = lower-Lowered i left v h h' (omega arith) in
        record {
          here = l.here ∙ ground arith;
          owner = l.owner ∙ ground (arith, l.here);
          elsewhere = l.elsewhere;
        })
      (λ empty. record {
        here = ground arith;
        owner = ground arith;
        elsewhere = λ j _. (refl, refl);
      })

-- The two cells of a shot, if they differ.
pub record Shot (c : EngineConstants) (src dst : ℕ) (v u : Volley) : Type 0 where
  pub paid : at u.counts src + c.gun_cost ≡ at v.counts src
  pub payer : at u.owners src ≡ (if at u.counts src == 0 then 0 else at v.owners src)
  pub hurt : at u.counts dst ≡ at v.counts dst - min c.gun_damage (at v.counts dst)
  pub victim :
      at u.owners dst
      ≡ (if ltb 0 (at v.counts dst) && at u.counts dst == 0 then 0 else at v.owners dst)

-- The cell of a shot at itself: it pays and is then hit.
pub record ShotAtItself (c : EngineConstants) (src : ℕ) (v u : Volley) : Type 0 where
  pub hurt :
      at u.counts src
      ≡ at v.counts src - c.gun_cost - min c.gun_damage (at v.counts src - c.gun_cost)
  pub victim : at u.owners src ≡ (if at u.counts src == 0 then 0 else at v.owners src)

-- A shot from `src` at `dst` that took the volley from `v` to `u`.
pub record Fired (c : EngineConstants) (src dst number : ℕ) (v u : Volley) : Type 0 where
  pub cells : ((src ≢ dst) × Shot c src dst v u) ⊎ ((src ≡ dst) × ShotAtItself c src v u)
  pub elsewhere :
      (j : ℕ)
      → j ≢ src
      → j ≢ dst
      → (at u.counts j ≡ at v.counts j) × (at u.owners j ≡ at v.owners j)
  pub recorded : (u.errors ≡ v.errors) × (u.successful ≡ v.successful ++ number ∷ [])

pub lower-hit-Fired :
    (c : EngineConstants) (src dst number : ℕ) (v : Volley)
    → c.gun_damage < 2 ^ 32
    → src < length v.counts
    → dst < length v.counts
    → src < length v.owners
    → dst < length v.owners
    → at v.counts src < 2 ^ 32
    → at v.counts dst < 2 ^ 32
    → c.gun_cost ≤ at v.counts src
    → let paid = lower src (sub32 (at v.counts src) (u32 c.gun_cost)) v in
      let fired = hit c dst paid in
      (fired.errors ≡ v.errors)
      → (fired.successful ≡ v.successful)
      → Fired c src dst number v (record fired { successful = fired.successful ++ number ∷ [] })
lower-hit-Fired c src dst number v hd hs ht ks kt bs bt pays ee es =
    let left = sub32 (at v.counts src) (u32 c.gun_cost) in
    let paid = lower src left v in
    let l = lower-Lowered src left v hs ks (omega arith) in
    let size = length-set v.counts src (u32 left) in
    let owners_size : length paid.owners ≡ length v.owners =
      if-elim (λ (os : List ℕ). length os ≡ length v.owners) (left == 0)
        (λ _. length-set v.owners src 0) (λ _. refl) in
    let other = l.elsewhere dst in
    let m = hit-Hurt c dst paid (omega arith) (omega arith) hd (ground (arith, l.here, other)) in
    record {
      cells = elim (Bool-cases (src == dst)) [
        | inr far ↦
            let ne : src ≢ dst = λ e. absurd (ground arith) in
            let near = m.elsewhere src ne in
            let before = other (λ e. ne (sym e)) in
            inl (
              ne,
              record {
                paid = omega (arith, near.0, l.here);
                payer = near.1 ∙ l.owner ∙ ground (arith, near.0, l.here);
                hurt = ground (arith, m.here, before.0);
                victim = m.owner ∙ ground (arith, before.0, before.1);
              },
            )
        | inl same ↦
            let e = ==→≡ src dst same in
            inr (
              e,
              record {
                hurt = ground (arith, l.here, m.here, e);
                victim = ground (arith, m.owner, l.owner, l.here, m.here, e);
              },
            )
      ];
      elsewhere = λ j a b.
          let far = m.elsewhere j b in
          let near = l.elsewhere j a in (far.0 ∙ near.0, far.1 ∙ near.1);
      recorded = (ee, ap (λ (l : List ℕ). l ++ number ∷ []) es);
    }

pub hit_records :
    (c : EngineConstants) (i : ℕ) (v : Volley)
    → ((hit c i v).errors ≡ v.errors) × ((hit c i v).successful ≡ v.successful)
unfolding hit
hit_records c i v =
    if-elim (λ (u : Volley). (u.errors ≡ v.errors) × (u.successful ≡ v.successful))
      (ltb 0 (at v.counts i)) (λ _. (refl, refl)) (λ _. (refl, refl))
