-- ===== src/Engine/Flow/Transfer.antt =====
-- The transfers of flow.ts, one pipe at a time.
use europa_neo.Prelude.{
  ℕ, zero, suc, ◌+◌, ◌-◌, ◌*◌, ◌≤◌, ◌<◌, ◌≡◌, ◌≢◌, refl, sym, ap, ◌∙◌, arith, at, sum, List,
  at-set_self, at-set_ne, sum-set, ◌==◌, ltb, leb, ◌&&◌, if◌then◌else◌, if-elim, u32, sub32,
  write32, Bool, true, false, Option, some, none, get_elem?, sub_ℕ, ℤ, inl, inr, Option-cases,
}
use europa_neo.Core.Types.{
  Board, Cell, Pos, Direction, north, east, south, west, is_land, is_land_cell, in_bounds,
  moved_coord, index,
}
use europa_neo.Core.FlowRate.{EngineConstants}
use europa_neo.Engine.Types.{WorldState}
use europa_neo.Engine.Valid.{AreTroops, Fits, capped-at, AreTroops-write, AreTroops-lower}
use europa_neo.Engine.Flow.{
  Buffers, TransferParams, add_tally, max_deductable, pipe_share, deliver, move_troops, onto_cell,
  transfer,
}

abbrev pub is_land_at : Board → ℕ → Bool
is_land_at board i = is_land_cell (get_elem? board.cells i)

-- No slot of a tally counts a player beyond the `k` of the match.
abbrev pub CountsKnown : ℕ → ℕ → List ℕ → Type 0
CountsKnown n k tally = (i p : ℕ) → i < n → k < p → p ≤ 4 → at tally (i * 4 + (p - 1)) ≡ 0

-- What a flow phase keeps from the state `s` that it began with.
pub record Flowing (n k cap : ℕ) (board : Board) (s : WorldState) (b : Buffers) : Type 0 where
  pub troops : AreTroops n k cap b.counts b.owners
  pub total : sum b.counts ≡ sum s.troop_counts
  pub committed_known : CountsKnown n k b.committed
  pub water : (i : ℕ) → is_land_at board i ≡ false → at b.counts i ≤ at s.troop_counts i

add_tally-CountsKnown :
    (n k i owner v : ℕ) (tally : List ℕ)
    → owner ≤ k
    → CountsKnown n k tally
    → CountsKnown n k (add_tally i owner v tally)
unfolding add_tally
add_tally-CountsKnown n k i owner v tally known c j p hj hp h4 =
    if-elim (λ t. at t (j * 4 + (p - 1)) ≡ 0) (leb 1 owner && leb owner 4)
      (λ inside.
        at-set_ne tally (i * 4 + (owner - 1)) (j * 4 + (p - 1)) _ (ground arith) ∙ c j p hj hp h4)
      (λ outside. c j p hj hp h4)

pub max_deductable-le : (src_count pct : ℕ) → max_deductable src_count pct ≤ src_count
unfolding max_deductable
max_deductable-le src_count pct = ground arith

module _ {n k cap : ℕ} (fits : Fits k cap) (board : Board) (c : EngineConstants)
    (fit : c.cell_capacity ≤ cap) {s : WorldState} where
  deliver-Flowing :
      (owner src dst src_count deductable moved : ℕ) (b : Buffers)
      → Flowing n k cap board s b
      → src < n
      → dst < n
      → src ≢ dst
      → is_land_at board dst ≡ true
      → src_count ≡ at b.counts src
      → deductable ≤ src_count
      → 0 < owner
      → owner ≤ k
      → Flowing n k cap board s (deliver c owner src dst src_count deductable moved b)
  unfolding deliver
  deliver-Flowing owner src dst src_count deductable moved b f hs hd ne dry e le pos_owner known =
      if-elim (Flowing n k cap board s) (leb (u32 c.cell_capacity) (at b.counts dst)) (λ full. f)
        (λ room.
          let deduct =
            (let add =
                (let headroom = u32 c.cell_capacity - at b.counts dst in
                  if ltb moved headroom then moved else headroom) in
              if ltb add deductable then add else deductable) in
          let dle : deduct ≤ deductable = ground arith in
          let hle : at b.counts dst + deduct ≤ cap = ground arith in
          let small = fits.small in
          let bs = capped-at fits f.troops src in
          let t1 =
            AreTroops-write fits f.troops dst (at b.counts dst + deduct) owner hle known
              (λ _. pos_owner) in
          let other =
            at-set_ne b.counts dst src (u32 (at b.counts dst + deduct)) (λ q. ne (ground arith)) in
          let s1 =
            sum-set b.counts dst (u32 (at b.counts dst + deduct))
              (omega (arith, f.troops.counts_size)) in
          let s2 =
            sum-set (write32 b.counts dst (at b.counts dst + deduct)) src
              (u32 (sub32 src_count deduct)) (omega (arith, t1.counts_size)) in
          record {
            troops = AreTroops-lower fits t1 src (sub32 src_count deduct) (omega arith);
            total = omega (arith, f.total);
            committed_known = f.committed_known;
            water = λ i wet. ground (
              arith,
              f.water i wet,
              at-set_ne b.counts dst i (u32 (at b.counts dst + deduct)),
              at-set_ne (write32 b.counts dst (at b.counts dst + deduct)) src i
                  (u32 (sub32 src_count deduct)),
              at-set_self (write32 b.counts dst (at b.counts dst + deduct)) src
                  (u32 (sub32 src_count deduct)) (omega (arith, t1.counts_size)),
            );
          })

  move_troops-Flowing :
      (reserves : List ℕ) (p : TransferParams) (src dst : ℕ) (delta : ℤ) (b : Buffers)
      → Flowing n k cap board s b
      → src < n
      → dst < n
      → src ≢ dst
      → is_land_at board dst ≡ true
      → 0 < p.src_owner
      → p.src_owner ≤ k
      → Flowing n k cap board s (move_troops c reserves p src dst delta b)
  unfolding move_troops
  move_troops-Flowing reserves p src dst delta b f hs hd ne land pos_owner known =
      let P = Flowing n k cap board s in
      if-elim P (at b.counts src == 0) (λ _. f)
        (λ _.
          if-elim P (max_deductable (at b.counts src) (at reserves src) == 0) (λ _. f)
            (λ _.
              if-elim P (pipe_share c p delta (at b.counts src) == 0) (λ _. f)
                (λ _.
                  deliver-Flowing p.src_owner src dst (at b.counts src) _ _ _
                    (record {
                      troops = f.troops;
                      total = f.total;
                      committed_known =
                          add_tally-CountsKnown n k dst p.src_owner _ b.committed known
                            f.committed_known;
                      water = f.water;
                    })
                    hs hd ne land refl (max_deductable-le _ _) pos_owner known)))

-- The neighbour of a cell is on the board and is another cell.
pub record IsNeighbour (w : ℕ) (p q : Pos) : Type 0 where
  pub column : q.0 < w
  pub row : q.1 < w
  pub apart : index w p ≢ index w q

pub in_bounds-IsNeighbour :
    (w : ℕ) (d : Direction) (p q : Pos)
    → p.0 < w
    → in_bounds w w (moved_coord d p) ≡ some q
    → IsNeighbour w p q
unfolding in_bounds
in_bounds-IsNeighbour w north (x, zero) q h e = ground arith
in_bounds-IsNeighbour w north (x, suc y) q h e = ground arith
in_bounds-IsNeighbour w east (x, y) q h e = ground arith
in_bounds-IsNeighbour w south (x, y) q h e =
    let below : q.1 ≡ y + 1 = ground arith in
    let level : q.0 ≡ x = ground arith in
    record {
      column = ground arith;
      row = ground arith;
      apart = λ same. omega (arith, ap (λ (t : ℕ). t * w) below);
    }
in_bounds-IsNeighbour w west (x, y) q h e = ground arith

pub index-lt : (w h : ℕ) (p : Pos) → p.0 < w → p.1 < h → index w p < w * h
index-lt w h p hx hy = grind arith

module _ {n k cap : ℕ} (fits : Fits k cap) (board : Board) (c : EngineConstants)
    (fit : c.cell_capacity ≤ cap) (area : board.width * board.width ≡ n) {s : WorldState} where
  onto_cell-Flowing :
      (reserves : List ℕ) (p : TransferParams) (src dst : ℕ) (from to : Option Cell) (b : Buffers)
      → to ≡ get_elem? board.cells dst
      → Flowing n k cap board s b
      → src < n
      → dst < n
      → src ≢ dst
      → 0 < p.src_owner
      → p.src_owner ≤ k
      → Flowing n k cap board s (onto_cell c reserves p src dst from to b)
  onto_cell-Flowing reserves p src dst (some a) (some d) b e f hs hd ne pos_owner known =
      if-elim (Flowing n k cap board s) (is_land d.terrain)
        (λ land.
          move_troops-Flowing fits board c fit reserves p src dst (sub_ℕ d.elevation a.elevation) b
            f hs hd ne (ap is_land_cell (sym e) ∙ land) pos_owner known)
        (λ water. f)
  onto_cell-Flowing reserves p src dst none (some d) b e f hs hd ne pos_owner known = f
  onto_cell-Flowing reserves p src dst none none b e f hs hd ne pos_owner known = f
  onto_cell-Flowing reserves p src dst (some a) none b e f hs hd ne pos_owner known = f

  pub transfer-Flowing :
      (reserves : List ℕ) (p : TransferParams) (b : Buffers)
      → Flowing n k cap board s b
      → p.cell.0 < board.width
      → p.cell.1 < board.width
      → 0 < p.src_owner
      → p.src_owner ≤ k
      → Flowing n k cap board s (transfer board c reserves p b)
  unfolding transfer
  transfer-Flowing reserves p b f hx hy pos_owner known =
      elim (Option-cases (in_bounds board.width board.width (moved_coord p.direction p.cell))) [
        | inl off ↦ rw (off, transfer) f
        | inr (q, on) ↦
            let near = in_bounds-IsNeighbour board.width p.direction p.cell q hx on in
            rw (on, transfer)
              (onto_cell-Flowing reserves p (index board.width p.cell) (index board.width q) _ _ b
                refl f (rw (← area) (index-lt board.width board.width p.cell hx hy))
                (rw (← area) (index-lt board.width board.width q near.column near.row)) near.apart
                pos_owner known)
      ]
