-- ===== src/Engine/Registry/Creation.antt =====
-- What `createPlayerRegistry` makes.
use europa_neo.Prelude.{
  suc, ◌≤◌, ◌<◌, ◌≡◌, ◌⊎◌, refl, ap, arith, List, [], ◌∷◌, length, true, ltb, ◌||◌, if-elim, Option,
  some, none, All, All-map, Returns, Distinct, get_elem?,
}
use mathlib.Core.List.{Perm}
use europa_neo.Core.PlayerId.{PlayerId, eq_id, is_player_id}
use europa_neo.Engine.Types.{PlayerRegistry}
use europa_neo.Engine.Registry.{
  count, position, index_of_id, id_at, check_ids, compare_utf16, sort_by, Created, created, refused,
  create_player_registry, register, RegistryError, bad_length,
}
use europa_neo.Engine.Registry.Lookup.{index_of_id-lt}
use europa_neo.Engine.Registry.Sorting.{All-sort_by, sort_by-perm, length-sort_by, All-sort_by_inv}
use europa_neo.Engine.Registry.Checks.{
  eq_id_refl, eq_id_sound, IsOffence, IsChecked, check_ids-IsChecked,
}

-- Each id of a list is found where it stands.
position-Returns :
    (xs : List PlayerId) → All (λ id. Returns (λ i. get_elem? xs i ≡ some id) (position id xs)) xs
position-Returns [] = tt
position-Returns (x ∷ xs) =
    ((0, rw (eq_id_refl x) refl, refl), All-map (λ id r. later id r) xs (position-Returns xs))
  where
    later :
        (id : PlayerId)
        → Returns (λ i. get_elem? xs i ≡ some id) (position id xs)
        → Returns (λ i. get_elem? (x ∷ xs) i ≡ some id) (position id (x ∷ xs))
    later id r =
        if-elim (Returns (λ i. get_elem? (x ∷ xs) i ≡ some id)) (eq_id x id)
          (λ same. (0, refl, ap some (eq_id_sound x id same))) (λ _. (suc r.0, rw (r.1) refl, r.2))

-- A registry that was created from `ids`: its index of each id is a position at which the id stands.
pub record IsRegistry (ids : List PlayerId) (r : PlayerRegistry) : Type 0 where
  pub same : Perm r.ids ids
  pub few : (2 ≤ count r) × (count r ≤ 4)
  pub canonical : All (λ id. is_player_id id ≡ true) r.ids
  pub distinct : Distinct ids
  pub registered : All (λ id. Returns (λ i. i < count r) (index_of_id r id)) ids
  pub found : All (λ id. Returns (λ i. id_at r i ≡ some id) (index_of_id r id)) ids

-- Why no registry is created.
pub data IsRefusal (ids : List PlayerId) : RegistryError → Type 0 where
  wrong_number : (length ids < 2) ⊎ (4 < length ids) → IsRefusal ids bad_length
  offending :
      (e : RegistryError)
      → (2 ≤ length ids) × (length ids ≤ 4)
      → IsOffence [] ids e
      → IsRefusal ids e

abbrev pub IsCreated : List PlayerId → Created → Type 0
IsCreated ids (created r) = IsRegistry ids r
IsCreated ids (refused e) = IsRefusal ids e

index_of_id-Returns :
    (r : PlayerRegistry) (id : PlayerId)
    → is_player_id id ≡ true
    → Returns (λ i. get_elem? r.ids i ≡ some id) (position id r.ids)
    → Returns (λ i. id_at r i ≡ some id) (index_of_id r id)
unfolding index_of_id id_at
index_of_id-Returns r id c p = (p.0, rw (index_of_id, c) p.1, p.2)

index_of_id-All :
    (r : PlayerRegistry) (ids : List PlayerId)
    → All (λ id. is_player_id id ≡ true) ids
    → All (λ id. Returns (λ i. get_elem? r.ids i ≡ some id) (position id r.ids)) ids
    → All (λ id. Returns (λ i. id_at r i ≡ some id) (index_of_id r id)) ids
index_of_id-All r [] c p = tt
index_of_id-All r (id ∷ ids) c p = (index_of_id-Returns r id c.0 p.0, index_of_id-All r ids c.1 p.1)

register-IsCreated :
    (ids : List PlayerId) (e : Option RegistryError)
    → (2 ≤ length ids) × (length ids ≤ 4)
    → IsChecked [] ids e
    → IsCreated ids (register ids e)
register-IsCreated ids (some e) few h = offending e few h
register-IsCreated ids none few h =
    let r : PlayerRegistry = record { ids = sort_by compare_utf16 ids } in
    let found =
      index_of_id-All r ids h.canonical
        (All-sort_by_inv compare_utf16 _ ids (position-Returns (sort_by compare_utf16 ids))) in
    record {
      same = sort_by-perm compare_utf16 ids;
      few = rw (length-sort_by compare_utf16 ids) few;
      canonical = All-sort_by compare_utf16 (λ id. is_player_id id ≡ true) ids h.canonical;
      distinct = h.distinct;
      registered = All-map (λ id p. (p.0, p.1, index_of_id-lt r id p.0 p.1)) ids found;
      found = found;
    }

-- A registry is created exactly if there are two to four ids, all canonical and different. It holds the
-- given ids, and its index of each is a position at which that id stands. Otherwise the error tells what is
-- wrong: the number of the ids, or else the first id that is not canonical or stands before.
pub create_player_registry-IsCreated :
    (ids : List PlayerId) → IsCreated ids (create_player_registry ids)
unfolding create_player_registry
create_player_registry-IsCreated ids =
    if-elim (IsCreated ids) (ltb (length ids) 2 || ltb 4 (length ids))
      (λ off. wrong_number (ground arith))
      (λ fits.
        register-IsCreated ids (check_ids [] ids) (ground arith, ground arith)
          (check_ids-IsChecked [] ids))
