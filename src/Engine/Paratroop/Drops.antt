-- ===== src/Engine/Paratroop/Drops.antt =====
-- One paratroop order behind the checks of terrain and range.
use europa_neo.Prelude.{
  ℕ, ◌+◌, ◌*◌, ◌^◌, ◌≤◌, ◌<◌, ◌≡◌, ◌≢◌, ◌⊎◌, inl, inr, refl, arith, at, [], ◌∷◌, ◌++◌, ltb, none,
  ◌==◌, not, sub32, some, Returns, Returns-if, Option-cases,
}
use europa_neo.Core.Types.{Pos, Coord}
use europa_neo.Core.PlayerId.{PlayerId}
use europa_neo.Engine.Reserves.Laws.{compute_reserves_floor-le}
use europa_neo.Engine.Types.{Order, ValidationError, unknown_player, not_owner, no_source_troops}
use europa_neo.Engine.Valid.{Fits, capped-at}
use europa_neo.Engine.Reserves.{compute_reserves_floor}
use europa_neo.Engine.Registry.{count, index_of_id}
use europa_neo.Engine.Registry.Lookup.{index_of_id-lt}
use europa_neo.Engine.Paratroop.{Drop, Zone, source_spend, depart}
use europa_neo.Engine.Paratroop.Landing.{IsDropIn}
use europa_neo.Engine.Paratroop.Launches.{Launched, launch-Launched}

-- Why an order is refused.
pub data IsReason (z : Zone) (player : PlayerId) (source : Coord) (src : ℕ) (d : Drop)
    : ValidationError → Type 0 where
  stranger :
      index_of_id z.registry player ≡ none → IsReason z player source src d (unknown_player player)
  foreign :
      (p : ℕ)
      → index_of_id z.registry player ≡ some p
      → at d.owners src ≢ p + 1
      → IsReason z player source src d (not_owner source)
  poor :
      (p : ℕ)
      → index_of_id z.registry player ≡ some p
      → at d.owners src ≡ p + 1
      → at d.counts src
        < compute_reserves_floor (at d.counts src) (at z.reserves src)
          + 2 * z.constants.paratroop_cost
      → IsReason z player source src d (no_source_troops source)

-- An order that was refused for its reason: the error is added and nothing else changes.
pub record IsRefused (z : Zone) (order : Order) (player : PlayerId) (source : Coord) (src : ℕ)
    (d u : Drop) : Type 0 where
  pub reason : ValidationError
  pub because : IsReason z player source src d reason
  pub noted : u ≡ record d { errors = d.errors ++ record { order = order; reason = reason } ∷ [] }

-- An accepted order, of a registered player who owns the source and can pay above its reserves.
pub record Accepted (z : Zone) (player : PlayerId) (src dst number : ℕ) (d u : Drop) : Type 0 where
  pub index : ℕ
  pub registered : index_of_id z.registry player ≡ some index
  pub own : at d.owners src ≡ index + 1
  pub affordable :
      compute_reserves_floor (at d.counts src) (at z.reserves src) + 2 * z.constants.paratroop_cost
      ≤ at d.counts src
  pub launched : Launched z src dst (index + 1) number d u

-- A paratroop order behind the checks of bounds, terrain and range does not throw on a valid drop. It is
-- refused, with the error of the first check that fails and nothing else changed, if its player is
-- unknown, does not own the source, or cannot pay twice the paratroop cost above the source's reserves.
-- Otherwise it is accepted, and: the source pays that and loses its owner if it is emptied; the target
-- gains the paratroopers up to the capacity if it is neutral or the player's own, and else is fought over,
-- the larger side holding it with the difference and equal sides leaving it empty; a cell that is both
-- pays first and then gains, and stays the player's; the pipes of the target are cleared, no other cell
-- changes, and the order's number is recorded.
pub depart-Accepted :
    {n cap : ℕ} (z : Zone) (order : Order) (player : PlayerId) (source : Coord) (src : ℕ)
    (target : Pos) (dst number : ℕ) (d : Drop)
    → Fits (count z.registry) cap
    → z.constants.cell_capacity ≡ cap
    → z.constants.paratroop_cost < 2 ^ 30
    → IsDropIn n cap z d
    → src < n
    → dst < n
    → Returns
        (λ (u : Drop).
          IsRefused z order player source src d u ⊎ Accepted z player src dst number d u)
        (depart z order player source src target dst number d)
unfolding depart source_spend
depart-Accepted z order player source src target dst number d fits fit small v hs ht =
    let P = λ (u : Drop).
      IsRefused z order player source src d u ⊎ Accepted z player src dst number d u in
    let count_src = at d.counts src in
    let low = compute_reserves_floor-le count_src (at z.reserves src) in
    let bound = capped-at fits v.troops src in
    let word = fits.small in
    elim (Option-cases (index_of_id z.registry player)) [
      | inl missing ↦
          rw (missing, depart)
            (_, refl, inl (record { reason = _; because = stranger missing; noted = refl }))
      | inr (p, found) ↦
          rw (found, depart)
            (Returns-if P (not (at d.owners src == p + 1))
              (λ others. (
                _,
                refl,
                inl (record { reason = _; because = foreign p found (ground arith); noted = refl }),
              ))
              (λ own.
                Returns-if P
                  (ltb (sub32 count_src (compute_reserves_floor count_src (at z.reserves src)))
                    (source_spend z.constants))
                  (λ few. (
                    _,
                    refl,
                    inl (record {
                      reason = _;
                      because = poor p found (ground arith) (ground arith);
                      noted = refl;
                    }),
                  ))
                  (λ rich.
                    let go =
                      launch-Launched z fits fit small src target dst (p + 1) number d v hs ht
                        (ground arith) (omega arith)
                        (omega (arith, index_of_id-lt z.registry player p found)) (ground arith) in
                    (
                      go.0,
                      go.1,
                      inr (record {
                        index = p;
                        registered = found;
                        own = ground arith;
                        affordable = ground arith;
                        launched = go.2;
                      }),
                    ))))
    ]
