-- ===== src/Fog/VisibleSet/Horizon.antt =====
-- What the first pass marks.
use europa_neo.Prelude.{
  ℕ, ◌+◌, ◌-◌, ◌*◌, ◌^◌, ◌<◌, ◌≡◌, refl, sym, ◌∙◌, ap, arith, inl, inr, true, List, [], ◌∷◌, Memᴰ,
  length, length-set, at, at-set_self, at-set_ne, set, ℤ, pos, ◌==◌, for_grid-keeps,
  for_grid-reaches, if-elim, Option, Bool-cases, ==→≡, ==→≢, subst, ap₂,
}
use europa_neo.Core.Types.{Pos, index}
use europa_neo.Engine.Types.{World}
use europa_neo.Engine.Read.{cells_in_range}
use europa_neo.Engine.Read.Laws.{InRange, cells_in_range_sound, cells_in_range_complete}
use europa_neo.Fog.VisibleSet.{to_signed32, resolve_radius, is_viewer, mark_cells, mark_horizons}
use native.Mathlib.Nat.{add-mul}

-- The abstract view: an occupied cell of the owner is near.
pub record Sees (w : World) (owner radius : ℕ) (p : Pos) : Type 0 where
  pub from : Pos
  pub on_x : from.0 < w.board.width
  pub on_y : from.1 < w.board.height
  pub owned : at w.state.troop_owners (index w.board.width from) ≡ owner
  pub occupied : 0 < at w.state.troop_counts (index w.board.width from)
  pub near : InRange w from radius p

pub resolve_radius-lt : (r : Option ℤ) (w : World) → resolve_radius r w < 2 ^ 31
unfolding resolve_radius to_signed32
resolve_radius-lt r w = ground arith

rows_apart : (w x x' y y' : ℕ) → x < w → y < y' → y * w + x < y' * w + x'
rows_apart w x x' y y' h lt =
    let split : y' * w ≡ (y + 1) * w + (y' - (y + 1)) * w =
      ap (λ (k : ℕ). k * w) (omega arith) ∙ add-mul (y + 1) (y' - (y + 1)) w in
    let next : (y + 1) * w ≡ y * w + w = add-mul y 1 w ∙ omega arith in omega arith

-- Two cells of the board do not share an index.
pub index_inj :
    (w : ℕ) (p q : Pos) → p.0 < w → q.0 < w → index w p ≡ index w q → (p.0 ≡ q.0) × (p.1 ≡ q.1)
index_inj w (x, y) (x', y') hp hq e =
    grind (arith, rows_apart w x x' y y' hp, rows_apart w x' x y' y hq)

module _ (w : World) (owner radius : ℕ) where
  -- Only cells that are seen are marked.
  abbrev pub MarksSeen : List ℕ → Type 0
  MarksSeen data_ =
      (q : Pos) → q.0 < w.board.width → at data_ (index w.board.width q) ≡ 1 → Sees w owner radius q

  mark_cells-MarksSeen :
      (cells : List Pos) (data_ : List ℕ)
      → ((q : Pos) → Memᴰ q cells → Sees w owner radius q)
      → MarksSeen data_
      → MarksSeen (mark_cells w.board.width cells data_)
  mark_cells-MarksSeen [] data_ seen held = held
  mark_cells-MarksSeen (c ∷ cs) data_ seen held =
      mark_cells-MarksSeen cs (set data_ (index w.board.width c) 1) (λ q m. seen q (Memᴰ.tail m))
        (λ q inside e. elim (Bool-cases (index w.board.width c == index w.board.width q)) [
          | inl same ↦
              let (ex, ey) =
                index_inj w.board.width c q (seen c (Memᴰ.head refl)).near.inside_x inside
                  (==→≡ _ _ same) in
              subst (Sees w owner radius) (ap₂ (λ (x y : ℕ). (x, y)) ex ey)
                (seen c (Memᴰ.head refl))
          | inr other ↦
              held q inside (sym (at-set_ne data_ _ (index w.board.width q) 1 (==→≢ _ _ other)) ∙ e)
        ])

  -- A mark stays, and the marked cells are marked.
  mark_cells-marked :
      (cells : List Pos) (data_ : List ℕ) (i : ℕ)
      → (i < length data_ → at data_ i ≡ 1)
      → i < length (mark_cells w.board.width cells data_)
      → at (mark_cells w.board.width cells data_) i ≡ 1
  mark_cells-marked [] data_ i held h = held h
  mark_cells-marked (c ∷ cs) data_ i held h =
      mark_cells-marked cs (set data_ (index w.board.width c) 1) i
        (λ lt. grind (
          arith,
          length-set data_ (index w.board.width c) 1,
          at-set_self data_ (index w.board.width c) 1,
          at-set_ne data_ (index w.board.width c) i 1,
        ))
        h

  mark_cells-marks :
      (cells : List Pos) (data_ : List ℕ) (q : Pos)
      → Memᴰ q cells
      → index w.board.width q < length (mark_cells w.board.width cells data_)
      → at (mark_cells w.board.width cells data_) (index w.board.width q) ≡ 1
  mark_cells-marks [] data_ q m h = elim m [ ]
  mark_cells-marks (c ∷ cs) data_ q (Memᴰ.head e) h =
      let marks = set data_ (index w.board.width c) 1 in
      mark_cells-marked cs marks (index w.board.width q)
        (subst
          (λ (z : Pos). index w.board.width z < length marks → at marks (index w.board.width z) ≡ 1)
          (sym e)
          (λ lt. at-set_self data_ _ 1 (omega (arith, length-set data_ (index w.board.width c) 1))))
        h
  mark_cells-marks (c ∷ cs) data_ q (Memᴰ.tail m) h =
      mark_cells-marks cs (set data_ (index w.board.width c) 1) q m h

  length-mark_cells :
      (cells : List Pos) (data_ : List ℕ)
      → length (mark_cells w.board.width cells data_) ≡ length data_
  length-mark_cells [] data_ = refl
  length-mark_cells (c ∷ cs) data_ =
      length-mark_cells cs (set data_ (index w.board.width c) 1)
      ∙ length-set data_ (index w.board.width c) 1

  pub length-mark_horizons :
      (data_ : List ℕ) → length (mark_horizons w owner radius data_) ≡ length data_
  unfolding mark_horizons
  length-mark_horizons data_ =
      for_grid-keeps (λ (t : List ℕ). length t ≡ length data_) w.board.height 0 w.board.width 0 _
        data_
        (λ p t b held.
          if-elim (λ (u : List ℕ). length u ≡ length data_) (is_viewer w owner p)
            (λ _. length-mark_cells (cells_in_range w p (pos radius)) t ∙ held) (λ _. held))
        refl

  pub mark_horizons-MarksSeen :
      (data_ : List ℕ)
      → radius < 2 ^ 31
      → MarksSeen data_
      → MarksSeen (mark_horizons w owner radius data_)
  unfolding mark_horizons is_viewer
  mark_horizons-MarksSeen data_ small first =
      for_grid-keeps MarksSeen w.board.height 0 w.board.width 0 _ data_
        (λ p t b held.
          if-elim MarksSeen (is_viewer w owner p)
            (λ viewer.
              mark_cells-MarksSeen (cells_in_range w p (pos radius)) t
                (λ q m. record {
                  from = p;
                  on_x = omega (arith, b.left);
                  on_y = omega (arith, b.over);
                  owned = ground arith;
                  occupied = ground arith;
                  near = cells_in_range_sound w p radius small q m;
                })
                held)
            (λ _. held))
        first

  pub mark_horizons-marks :
      (data_ : List ℕ) (q : Pos)
      → radius < 2 ^ 31
      → Sees w owner radius q
      → index w.board.width q < length (mark_horizons w owner radius data_)
      → at (mark_horizons w owner radius data_) (index w.board.width q) ≡ 1
  unfolding mark_horizons is_viewer
  mark_horizons-marks data_ q small s =
      for_grid-reaches
        (λ (t : List ℕ). index w.board.width q < length t → at t (index w.board.width q) ≡ 1)
        w.board.height 0 w.board.width 0 _ data_ s.from
        (record {
          right = omega arith;
          left = omega (arith, s.on_x);
          under = omega arith;
          over = omega (arith, s.on_y);
        })
        (λ t. rw (viewing) (
          mark_cells-marks (cells_in_range w s.from (pos radius)) t q
            (cells_in_range_complete w s.from radius small q s.near)))
        (λ p t held.
          if-elim
            (λ (u : List ℕ). index w.board.width q < length u → at u (index w.board.width q) ≡ 1)
            (is_viewer w owner p)
            (λ _.
              mark_cells-marked (cells_in_range w p (pos radius)) t (index w.board.width q) held)
            (λ _. held))
    where
      viewing : is_viewer w owner s.from ≡ true
      viewing = ground (arith, s.owned, s.occupied)
