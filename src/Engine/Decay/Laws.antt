-- ===== src/Engine/Decay/Laws.antt =====
-- What the decay phase does to a valid state: the two preparing loops of tick.ts, then the decay.
use europa_neo.Prelude.{
  ℕ, ◌+◌, ◌-◌, ◌*◌, ◌≤◌, ◌<◌, ◌≡◌, refl, arith, at, length-replicate, replicate, for_range_inv,
  ◌==◌, ltb, leb, not, ◌&&◌, ◌||◌, max, if◌then◌else◌, u32, Upto, Upto-start, Upto-set, Upto-keep,
  Bool, All-at, false, if-elim, write32, write8,
}
use europa_neo.Core.Types.{Board}
use europa_neo.Core.FlowRate.{EngineConstants}
use europa_neo.Engine.Types.{WorldState}
use europa_neo.Engine.Valid.{AreTroops, IsValid, Fits, capped-at, AreTroops-write, AreTroops-lower}
use europa_neo.Engine.Production.{Troops}
use europa_neo.Engine.Reserves.{reserve_floor}
use europa_neo.Engine.Reserves.Laws.{reserve_floor-le}
use europa_neo.Engine.Decay.{
  reserved_floors, is_fed, has_incoming_same_owner_pipe, decay_cell, resolve_decay,
}

reserve_floor_zero :
    (count pct : ℕ) → (ltb 0 pct && ltb 0 count) ≡ false → reserve_floor count pct ≡ 0
unfolding reserve_floor
reserve_floor_zero count pct h = ground arith

module _ {n k cap : ℕ} (fits : Fits k cap) {s : WorldState} (v : IsValid n k cap s) where
  floor_at-le :
      (i : ℕ) → reserve_floor (at s.troop_counts i) (at s.reserves_pct i) ≤ at s.troop_counts i
  floor_at-le i =
      reserve_floor-le (at s.troop_counts i) (at s.reserves_pct i)
        (All-at (λ p. p < 10) s.reserves_pct i v.reserves_bounded (omega arith))

  reserved_floors-at :
      (i : ℕ)
      → i < n
      → at (reserved_floors s n) i ≡ reserve_floor (at s.troop_counts i) (at s.reserves_pct i)
  unfolding reserved_floors
  reserved_floors-at i h = run.done i (omega arith)
    where
      run :
          Upto
            (λ i. reserve_floor (at s.troop_counts i) (at s.reserves_pct i))
            (replicate n 0)
            (reserved_floors s n)
            n
      run =
          for_range_inv
            (λ j xs.
              Upto (λ i. reserve_floor (at s.troop_counts i) (at s.reserves_pct i)) (replicate n 0)
                xs j)
            _ n 0 n (replicate n 0) (omega arith)
            (λ j xs _ hi u.
              let small = fits.small in
              Upto-set _ (omega (arith, length-replicate {A = ℕ} n 0))
                (ground (
                  arith,
                  floor_at-le j,
                  capped-at fits v.troops j,
                  reserve_floor_zero (at s.troop_counts j) (at s.reserves_pct j),
                ))
                u)
            Upto-start

  has_incoming-at :
      (w i : ℕ)
      → i < n
      → at (has_incoming_same_owner_pipe s w n) i ≡ (if is_fed s w i then 1 else 0)
  unfolding has_incoming_same_owner_pipe
  has_incoming-at w i h = run.done i (omega arith)
    where
      run :
          Upto
            (λ i. if is_fed s w i then 1 else 0)
            (replicate n 0)
            (has_incoming_same_owner_pipe s w n)
            n
      run =
          for_range_inv (λ j xs. Upto (λ i. if is_fed s w i then 1 else 0) (replicate n 0) xs j) _ n
            0 n (replicate n 0) (omega arith)
            (λ j xs _ hi u.
              Upto-set _ (omega (arith, length-replicate {A = ℕ} n 0)) (ground arith) u)
            Upto-start

-- A stack that does not decay: empty, neutral, in a city, or fed by a pipe of its owner.
abbrev pub is_kept : WorldState → ℕ → ℕ → Bool
is_kept s w i =
    at s.troop_counts i == 0
    || at s.troop_owners i == 0
    || not (at s.city_owners i == 0)
    || is_fed s w i

-- The count that is left: one tick's decay, but not below the reserves.
abbrev pub decayed_count : EngineConstants → WorldState → ℕ → ℕ → ℕ
decayed_count c s w i =
    let count = at s.troop_counts i in
    if is_kept s w i
    then count
    else max (count - c.decay_per_tick) (reserve_floor count (at s.reserves_pct i))

abbrev pub decayed_owner : EngineConstants → WorldState → ℕ → ℕ → ℕ
decayed_owner c s w i =
    if not (is_kept s w i) && decayed_count c s w i == 0 then 0 else at s.troop_owners i

record Progress (n k cap w : ℕ) (c : EngineConstants) (s : WorldState) (j : ℕ) (t : Troops)
    : Type 0 where
  troops : AreTroops n k cap t.counts t.owners
  counts : Upto (decayed_count c s w) s.troop_counts t.counts j
  owners : Upto (decayed_owner c s w) s.troop_owners t.owners j

module _ {n k cap : ℕ} (fits : Fits k cap) {s : WorldState} (v : IsValid n k cap s)
    (c : EngineConstants) (slow : c.decay_per_tick ≤ 1) (w : ℕ) where
  abbrev cell_step : ℕ → Troops → Troops
  cell_step = decay_cell c s.city_owners (has_incoming_same_owner_pipe s w n) (reserved_floors s n)

  keep-Progress :
      (j : ℕ) (t : Troops)
      → at s.troop_counts j ≡ decayed_count c s w j
      → at s.troop_owners j ≡ decayed_owner c s w j
      → Progress n k cap w c s j t
      → Progress n k cap w c s (j + 1) t
  keep-Progress j t ec eo p = record {
    troops = p.troops;
    counts = Upto-keep ec p.counts;
    owners = Upto-keep eo p.owners;
  }

  -- The write of a smaller count, of which the owner is cleared if it is 0.
  lower-Progress :
      (j left : ℕ) (t : Troops)
      → j < n
      → left ≤ at s.troop_counts j
      → left ≡ decayed_count c s w j
      → is_kept s w j ≡ false
      → Progress n k cap w c s j t
      → Progress n k cap w c s (j + 1) (record {
        counts = write32 t.counts j left;
        owners = if left == 0 then write8 t.owners j 0 else t.owners;
      })
  lower-Progress j left t h le e moves p =
      let ec = p.counts.todo j (omega arith) in
      let bound = capped-at fits v.troops j in
      let small = fits.small in
      let counts' =
        Upto-set (u32 left) (omega (arith, v.troops.counts_size)) (omega arith) p.counts in
      if-elim
        (λ owners.
          Progress n k cap w c s (j + 1)
            (record { counts = write32 t.counts j left; owners = owners }))
        (left == 0)
        (λ none_left. record {
          troops =
              AreTroops-write fits p.troops j left 0 (omega arith) (omega arith) (ground arith);
          counts = counts';
          owners = Upto-set 0 (omega (arith, v.troops.owners_size)) (ground arith) p.owners;
        })
        (λ some_left. record {
          troops = AreTroops-lower fits p.troops j left (omega arith);
          counts = counts';
          owners = Upto-keep (ground arith) p.owners;
        })

  decay_cell-Progress :
      (j : ℕ) (t : Troops)
      → j < n
      → Progress n k cap w c s j t
      → Progress n k cap w c s (j + 1) (cell_step j t)
  unfolding decay_cell
  decay_cell-Progress j t h p =
      let ec = p.counts.todo j (omega arith) in
      let eo = p.owners.todo j (omega arith) in
      let ef = reserved_floors-at fits v j h in
      let ep = has_incoming-at fits v w j h in
      let fl = floor_at-le fits v j in
      let bound = capped-at fits v.troops j in
      let small = fits.small in
      let P = Progress n k cap w c s (j + 1) in
      if-elim P (at t.counts j == 0) (λ empty. keep-Progress j t (ground arith) (ground arith) p)
        (λ full.
          if-elim P (at t.owners j == 0)
            (λ neutral. keep-Progress j t (ground arith) (ground arith) p)
            (λ owned.
              if-elim P (not (at s.city_owners j == 0))
                (λ city. keep-Progress j t (ground arith) (ground arith) p)
                (λ field.
                  if-elim P (not (at (has_incoming_same_owner_pipe s w n) j == 0))
                    (λ fed. keep-Progress j t (ground arith) (ground arith) p)
                    (λ unfed.
                      if-elim P (leb (at t.counts j) (at (reserved_floors s n) j))
                        (λ low. keep-Progress j t (ground arith) (ground arith) p)
                        (λ high.
                          lower-Progress j _ t h (ground arith) (ground arith) (ground arith) p)))))

  -- What the decay phase leaves.
  pub record Decayed (out : WorldState) : Type 0 where
    pub counts : (i : ℕ) → i < n → at out.troop_counts i ≡ decayed_count c s w i
    pub owners : (i : ℕ) → i < n → at out.troop_owners i ≡ decayed_owner c s w i
    pub others : out ≡ record s { troop_counts = out.troop_counts; troop_owners = out.troop_owners }
    pub valid : IsValid n k cap out

  -- On a valid state, with at most one troop lost per tick, every stack that is empty, neutral, in a
  -- city or fed by a pipe of its owner keeps its count; every other one loses a tick's decay, but no
  -- more than leaves its reserves; a stack that ends so at 0 loses its owner. No other array changes,
  -- and the state stays valid.
  pub resolve_decay-Decayed :
      (board : Board)
      → board.width * board.height ≡ n
      → Decayed (resolve_decay s board c (has_incoming_same_owner_pipe s w n) (reserved_floors s n))
  unfolding resolve_decay
  resolve_decay-Decayed board area =
      let run =
        for_range_inv (Progress n k cap w c s) cell_step (board.width * board.height) 0 n
          (record { counts = s.troop_counts; owners = s.troop_owners }) (omega arith)
          (λ j t _ hi p. decay_cell-Progress j t hi p)
          (record { troops = v.troops; counts = Upto-start; owners = Upto-start }) in
      record {
        counts = λ i h. run.counts.done i h;
        owners = λ i h. run.owners.done i h;
        others = refl;
        valid = record {
          troops = run.troops;
          masks_size = v.masks_size;
          reserves_size = v.reserves_size;
          cities_size = v.cities_size;
          cities_known = v.cities_known;
          reserves_bounded = v.reserves_bounded;
        };
      }
