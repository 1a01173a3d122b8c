-- ===== src/Engine/Registry/Lookup.antt =====
-- The lookups of the registry.
use europa_neo.Prelude.{
  ℕ, zero, suc, ◌≤◌, ◌<◌, ◌≡◌, arith, List, [], ◌∷◌, length, some, get_elem?-lt, Option-cases, inl,
  inr, Returns,
}
use europa_neo.Core.PlayerId.{PlayerId}
use europa_neo.Engine.Types.{PlayerRegistry}
use europa_neo.Engine.Registry.{count, id_at, require_id, position, index_of_id}

-- `requireIdAt` does not throw at the byte of a registered player.
pub require_id-registered :
    (r : PlayerRegistry) (o : ℕ) → 0 < o → o ≤ count r → Returns (λ _. Unit {0}) (require_id r o)
unfolding id_at
require_id-registered r zero p h = absurd (omega arith)
require_id-registered r (suc i) p h =
    let (id, e) = get_elem?-lt r.ids i (omega arith) in (id, e, tt)

position-lt :
    (id : PlayerId) (ids : List PlayerId) (i : ℕ) → position id ids ≡ some i → i < length ids
position-lt id [] i e = cc
position-lt id (x ∷ xs) i e = elim (Option-cases (position id xs)) [
  | inl missing ↦ ground arith
  | inr (j, found) ↦ ground (arith, position-lt id xs j found)
]

-- A registered id has an index below the number of players.
pub index_of_id-lt :
    (r : PlayerRegistry) (id : PlayerId) (i : ℕ) → index_of_id r id ≡ some i → i < count r
unfolding index_of_id
index_of_id-lt r id i e = ground (arith, position-lt id r.ids i)
