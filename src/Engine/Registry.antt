-- ===== src/Engine/Registry.antt =====
-- packages/engine/src/playerRegistry.ts: the dense order of the players.
pub mod Lookup
pub mod Sorting
pub mod Checks
pub mod Creation
pub mod Order
pub mod Canonical
use europa_neo.Prelude.{
  ℕ, zero, suc, ◌+◌, ◌-◌, ltb, leb, ◌==◌, if◌then◌else◌, Bool, true, false, not, ◌&&◌, ◌||◌, Option,
  none, some, List, [], ◌∷◌, length, get_elem?, ℤ, pos, negsuc, sub_ℕ,
}
use europa_neo.Core.PlayerId.{PlayerId, is_player_id, eq_id}
use europa_neo.Engine.Types.{PlayerRegistry}

abbrev pub min_players_per_match : ℕ
min_players_per_match = 2

abbrev pub max_players_per_match : ℕ
max_players_per_match = 4

-- Negative, zero or positive; at a prefix, the difference of the lengths.
unfoldable pub compare_utf16 : PlayerId → PlayerId → ℤ
compare_utf16 [] bs = sub_ℕ 0 (length bs)
compare_utf16 (a ∷ as') [] = sub_ℕ (length (a ∷ as')) 0
compare_utf16 (a ∷ as') (b ∷ bs) =
    let rest = compare_utf16 as' bs in if a == b then rest else sub_ℕ a b

abbrev pub is_positive : ℤ → Bool
is_positive (pos zero) = false
is_positive (pos (suc n)) = true
is_positive (negsuc n) = false

-- `Array.prototype.sort` with a comparator: a stable sort.
module _ {ℓ} {A : Type ℓ} (cmp : A → A → ℤ) where
  unfoldable pub insert_by : A → List A → List A
  insert_by x [] = x ∷ []
  insert_by x (y ∷ ys) = if is_positive (cmp x y) then y ∷ insert_by x ys else x ∷ y ∷ ys

  unfoldable pub sort_by : List A → List A
  unfolding insert_by
  sort_by [] = []
  sort_by (x ∷ xs) = insert_by x (sort_by xs)

abbrev pub id_mem : PlayerId → List PlayerId → Bool
id_mem id [] = false
id_mem id (x ∷ xs) = eq_id x id || id_mem id xs

pub data RegistryError : Type 0 where
  bad_length not_canonical duplicate : RegistryError

pub data Created : Type 0 where
  created : PlayerRegistry → Created
  refused : RegistryError → Created

-- The loop over the ids with the set of those seen: the first error, if there is one.
unfoldable pub check_ids : List PlayerId → List PlayerId → Option RegistryError
check_ids seen [] = none
check_ids seen (id ∷ ids) =
    if not (is_player_id id)
    then some not_canonical
    else if id_mem id seen
    then some duplicate
    else check_ids (id ∷ seen) ids

-- The ids that pass the checks are sorted.
abbrev pub register : List PlayerId → Option RegistryError → Created
register ids (some e) = refused e
register ids none = created (record { ids = sort_by compare_utf16 ids })

unfoldable pub create_player_registry : List PlayerId → Created
create_player_registry ids =
    if ltb (length ids) min_players_per_match || ltb max_players_per_match (length ids)
    then refused bad_length
    else register ids (check_ids [] ids)

abbrev pub count : PlayerRegistry → ℕ
count r = length r.ids

abbrev pub position : PlayerId → List PlayerId → Option ℕ
position id [] = none
position id (x ∷ xs) =
    let rest = position id xs in
    if eq_id x id then some 0 else elim rest [ none ↦ none | some i ↦ some (suc i) ]

unfoldable pub index_of_id : PlayerRegistry → PlayerId → Option ℕ
index_of_id r id = if is_player_id id then position id r.ids else none

unfoldable pub id_at : PlayerRegistry → ℕ → Option PlayerId
id_at r i = get_elem? r.ids i

-- `requireIdAt(byte - 1)` for an owner byte: `none` is the thrown RangeError (also of byte 0).
abbrev pub require_id : PlayerRegistry → ℕ → Option PlayerId
require_id r zero = none
require_id r (suc i) = id_at r i
