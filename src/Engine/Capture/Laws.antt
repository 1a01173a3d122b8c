-- ===== src/Engine/Capture/Laws.antt =====
-- What capture does to a valid state.
use europa_neo.Prelude.{
  ℕ, ◌+◌, ◌*◌, ◌≤◌, ◌<◌, ◌≡◌, refl, ◌∙◌, arith, at, All, All-set, All-at, for_range?_inv, ◌==◌,
  if◌then◌else◌, u8, Upto, Upto-start, Upto-set, Upto-keep, Returns, Returns-if, Returns-bind, some,
}
use europa_neo.Core.Types.{Board}
use europa_neo.Core.FlowRate.{EngineConstants}
use europa_neo.Engine.Types.{empty_tick_events, WorldState, TickEvents, PlayerRegistry}
use europa_neo.Engine.Valid.{IsValid, Fits, known-at}
use europa_neo.Engine.Registry.{count}
use europa_neo.Engine.Registry.Lookup.{require_id-registered}
use europa_neo.Engine.Capture.{Captures, capture_city, capture_cell, resolve_capture}

-- Who holds a city of `city` with `occupant` on it.
abbrev pub settle : ℕ → ℕ → ℕ
settle city occupant = if city == 0 then 0 else if occupant == 0 then city else occupant

abbrev settled : WorldState → ℕ → ℕ
settled s i = settle (at s.city_owners i) (at s.troop_owners i)

-- The state after the cells below `j`.
record Progress (k : ℕ) (s : WorldState) (j : ℕ) (t : Captures) : Type 0 where
  written : Upto (settled s) s.city_owners t.city_owners j
  known : All (λ o. o ≤ k) t.city_owners

module _ (board : Board) (tick : ℕ) (r : PlayerRegistry) {n cap : ℕ} (fits : Fits (count r) cap)
    {s : WorldState} (v : IsValid n (count r) cap s) where
  capture_city-Progress :
      (j : ℕ) (t : Captures)
      → j < n
      → Progress (count r) s j t
      → 0 < at t.city_owners j
      → 0 < at s.troop_owners j
      → Returns
          (Progress (count r) s (j + 1))
          (capture_city board tick r j (at t.city_owners j) (at s.troop_owners j) t)
  unfolding capture_city
  capture_city-Progress j t h p city held =
      let same = p.written.todo j (omega arith) in
      let occupant = known-at fits v.troops j in
      let small = fits.few in
      Returns-bind (λ _. Unit {0}) (Progress (count r) s (j + 1))
        (require_id-registered r (at t.city_owners j) city
          (All-at (λ o. o ≤ count r) t.city_owners j p.known (omega arith)))
        (λ from _ _.
          Returns-bind (λ _. Unit {0}) (Progress (count r) s (j + 1))
            (require_id-registered r (at s.troop_owners j) held occupant)
            (λ to _ _. (
              _,
              refl,
              record {
                written =
                    Upto-set (u8 (at s.troop_owners j)) (omega (arith, v.cities_size))
                      (ground arith) p.written;
                known =
                    All-set (λ o. o ≤ count r) t.city_owners j (u8 (at s.troop_owners j)) p.known
                      (omega arith);
              },
            )))

  capture_cell-Progress :
      (j : ℕ) (t : Captures)
      → j < n
      → Progress (count r) s j t
      → Returns (Progress (count r) s (j + 1)) (capture_cell s board tick r j t)
  unfolding capture_cell
  capture_cell-Progress j t h p =
      let same = p.written.todo j (omega arith) in
      let keep : at s.city_owners j ≡ settled s j → Progress (count r) s (j + 1) t =
        λ e. record { written = Upto-keep e p.written; known = p.known } in
      let P = Progress (count r) s (j + 1) in
      Returns-if P (at t.city_owners j == 0) (λ none_here. (t, refl, keep (ground arith)))
        (λ city.
          Returns-if P (at s.troop_owners j == 0) (λ empty. (t, refl, keep (ground arith)))
            (λ held.
              Returns-if P (at s.troop_owners j == at t.city_owners j)
                (λ own. (t, refl, keep (ground arith)))
                (λ enemy. capture_city-Progress j t h p (ground arith) (ground arith))))

  -- What `resolveCapture` returns.
  pub record Captured (out : WorldState × TickEvents) : Type 0 where
    pub cities : (i : ℕ) → i < n → at out.0.city_owners i ≡ settled s i
    pub others : out.0 ≡ record s { city_owners = out.0.city_owners }
    pub valid : IsValid n (count r) cap out.0

  -- On a valid state of the board, with the registry's players, capture does not throw. Each city with
  -- an occupant passes to the occupant, every other cell keeps what it had, no other array changes, and
  -- the new state is valid.
  pub resolve_capture-Captured :
      (c : EngineConstants)
      → board.width * board.height ≡ n
      → (out : WorldState × TickEvents) × (resolve_capture s board c tick r ≡ some out)
        × Captured out
  unfolding resolve_capture
  resolve_capture-Captured c area =
      let run =
        for_range?_inv (Progress (count r) s) (capture_cell s board tick r)
          (board.width * board.height) 0 (board.width * board.height)
          (record { city_owners = s.city_owners; events = empty_tick_events }) (omega arith)
          (λ j t _ hi p. capture_cell-Progress j t (omega arith) p)
          (record { written = Upto-start; known = v.cities_known }) in
      (
        (record s { city_owners = run.0.city_owners }, run.0.events),
        rw run.1,
        record {
          cities = λ i h. run.2.written.done i (omega arith);
          others = refl;
          valid = record {
            troops = v.troops;
            masks_size = v.masks_size;
            reserves_size = v.reserves_size;
            cities_size = run.2.written.size ∙ v.cities_size;
            cities_known = run.2.known;
            reserves_bounded = v.reserves_bounded;
          };
        },
      )
