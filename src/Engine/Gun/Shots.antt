-- ===== src/Engine/Gun/Shots.antt =====
-- What one gun order does.
use europa_neo.Prelude.{
  ℕ, ◌+◌, ◌^◌, ◌≤◌, ◌<◌, ◌≡◌, ◌≢◌, ◌⊎◌, inl, inr, refl, arith, at, List, [], ◌∷◌, ◌++◌, ◌==◌, ltb,
  not, if-elim, u32, sub32, some, none, Option-cases,
}
use europa_neo.Core.Types.{Coord}
use europa_neo.Core.FlowRate.{EngineConstants}
use europa_neo.Core.PlayerId.{PlayerId}
use europa_neo.Engine.Reserves.Laws.{compute_reserves_floor-le}
use europa_neo.Engine.Types.{
  Order, PlayerRegistry, ValidationError, unknown_player, not_owner, no_source_troops,
}
use europa_neo.Engine.Registry.{index_of_id}
use europa_neo.Engine.Reserves.{compute_reserves_floor}
use europa_neo.Engine.Valid.{AreTroops, Fits, capped-at}
use europa_neo.Engine.Gun.{Volley, lower, shoot}
use europa_neo.Engine.Gun.Hits.{Fired, lower-hit-Fired, hit_records}

-- Why a shot is refused.
pub data IsReason (c : EngineConstants) (reserves : List ℕ) (registry : PlayerRegistry)
    (player : PlayerId) (source : Coord) (src : ℕ) (v : Volley) : ValidationError → Type 0 where
  stranger :
      index_of_id registry player ≡ none
      → IsReason c reserves registry player source src v (unknown_player player)
  foreign :
      (p : ℕ)
      → index_of_id registry player ≡ some p
      → at v.owners src ≢ p + 1
      → IsReason c reserves registry player source src v (not_owner source)
  poor :
      (p : ℕ)
      → index_of_id registry player ≡ some p
      → at v.owners src ≡ p + 1
      → at v.counts src < compute_reserves_floor (at v.counts src) (at reserves src) + c.gun_cost
      → IsReason c reserves registry player source src v (no_source_troops source)

-- A shot that was refused for its reason: the error is added and nothing else changes.
pub record IsRefused (c : EngineConstants) (reserves : List ℕ) (registry : PlayerRegistry)
    (order : Order) (player : PlayerId) (source : Coord) (src : ℕ) (v u : Volley) : Type 0 where
  pub reason : ValidationError
  pub because : IsReason c reserves registry player source src v reason
  pub noted : u ≡ record v { errors = v.errors ++ record { order = order; reason = reason } ∷ [] }

-- An accepted shot: who may fire it, and what it does.
pub record Accepted (c : EngineConstants) (reserves : List ℕ) (registry : PlayerRegistry)
    (player : PlayerId) (src dst number : ℕ) (v u : Volley) : Type 0 where
  pub shooter : ℕ
  pub registered : index_of_id registry player ≡ some shooter
  pub own : at v.owners src ≡ shooter + 1
  pub affordable :
      compute_reserves_floor (at v.counts src) (at reserves src) + c.gun_cost ≤ at v.counts src
  pub fired : Fired c src dst number v u

-- A gun order with both cells on the board is refused or accepted. It is refused, with the error of the
-- first check that fails and nothing else changed, if its player is unknown, does not own the source, or
-- cannot pay above the source's reserves. Otherwise it is accepted, and has exactly its effects: the source
-- pays the cost and loses its owner if it is emptied; the target, whoever owns it, loses the damage or all
-- it has, and its owner with its last troops; no other cell changes, and the order's number is recorded.
pub shoot-Fired :
    {n k cap : ℕ} (c : EngineConstants) (reserves : List ℕ) (registry : PlayerRegistry)
    (order : Order) (player : PlayerId) (source : Coord) (src dst number : ℕ) (v : Volley)
    → c.gun_cost < 2 ^ 32
    → c.gun_damage < 2 ^ 32
    → Fits k cap
    → AreTroops n k cap v.counts v.owners
    → src < n
    → dst < n
    → let u = shoot c reserves registry order player source src dst number v in
      IsRefused c reserves registry order player source src v u
      ⊎ Accepted c reserves registry player src dst number v u
unfolding shoot
shoot-Fired c reserves registry order player source src dst number v hc hd fits t hs ht =
    let count = at v.counts src in
    let floor = compute_reserves_floor count (at reserves src) in
    let low = compute_reserves_floor-le count (at reserves src) in
    let bs = capped-at fits t src in
    let bt = capped-at fits t dst in
    let small = fits.small in
    let paid = lower src (sub32 count (u32 c.gun_cost)) v in
    let kept = hit_records c dst paid in
    let P = λ (u : Volley).
      IsRefused c reserves registry order player source src v u
      ⊎ Accepted c reserves registry player src dst number v u in
    elim (Option-cases (index_of_id registry player)) [
      | inl missing ↦
          rw (missing, shoot)
            (inl (record { reason = _; because = stranger missing; noted = refl }))
      | inr (p, found) ↦
          rw (found, shoot)
            (if-elim P (not (at v.owners src == p + 1))
              (λ others.
                inl (record { reason = _; because = foreign p found (ground arith); noted = refl }))
              (λ own.
                if-elim P (ltb (sub32 count floor) (u32 c.gun_cost))
                  (λ few. inl (record {
                    reason = _;
                    because = poor p found (ground arith) (ground arith);
                    noted = refl;
                  }))
                  (λ rich. inr (record {
                    shooter = p;
                    registered = found;
                    own = ground arith;
                    affordable = ground arith;
                    fired =
                        lower-hit-Fired c src dst number v hd (omega (arith, t.counts_size))
                          (omega (arith, t.counts_size)) (omega (arith, t.owners_size))
                          (omega (arith, t.owners_size)) (omega arith) (omega arith) (ground arith)
                          kept.0 kept.1;
                  }))))
    ]
