-- ===== src/Engine/Registry/Canonical.antt =====
-- The dense order of a registry.
use europa_neo.Prelude.{
  ◌≡◌, refl, sym, ap, ◌∙◌, List, [], ◌∷◌, true, false, if-elim, Bool-cases, inl, inr, Option, some,
  none, ltb, length, ◌||◌,
}
use mathlib.Core.List.{Perm, foldr}
use mathlib.Core.List
use mathlib.Core.List.Perm
use native.Mathlib.Nat.{ℕ_set}
use europa_neo.Core.PlayerId.{PlayerId}
use europa_neo.Engine.Types.{PlayerRegistry}
use europa_neo.Engine.Registry.{
  compare_utf16, insert_by, sort_by, create_player_registry, created, register, check_ids,
  RegistryError, min_players_per_match, max_players_per_match,
}
use europa_neo.Engine.Registry.Order.{is_after, is_after_antisym, is_after_asym, is_after_between}

abbrev insert : PlayerId → List PlayerId → List PlayerId
insert = insert_by compare_utf16

insert_after :
    (x z : PlayerId) (l : List PlayerId) → is_after x z ≡ true → insert x (z ∷ l) ≡ z ∷ insert x l
unfolding insert_by
insert_after x z l h = rw h refl

insert_before :
    (x z : PlayerId) (l : List PlayerId) → is_after x z ≡ false → insert x (z ∷ l) ≡ x ∷ z ∷ l
unfolding insert_by
insert_before x z l h = rw h refl

-- Two ids that both belong in front of `t`.
insert_front :
    (x y : PlayerId) (t : List PlayerId)
    → insert x t ≡ x ∷ t
    → insert y t ≡ y ∷ t
    → insert x (y ∷ t) ≡ insert y (x ∷ t)
insert_front x y t hx hy = elim (Bool-cases (is_after x y)) [
  | inl above ↦
      insert_after x y t above
      ∙ ap (λ (l : List PlayerId). y ∷ l) hx
      ∙ sym (insert_before y x t (is_after_asym x y above))
  | inr below ↦ elim (Bool-cases (is_after y x)) [
    | inl above ↦
        insert_before x y t below
        ∙ sym (insert_after y x t above ∙ ap (λ (l : List PlayerId). x ∷ l) hy)
    | inr level ↦ (let e = is_after_antisym x y below level in rw e refl)
  ]
]

-- The larger of two ids passes the head `z`, the other one does not.
insert_apart :
    (x y z : PlayerId) (l : List PlayerId)
    → is_after x z ≡ true
    → is_after y z ≡ false
    → insert x (insert y (z ∷ l)) ≡ insert y (insert x (z ∷ l))
insert_apart x y z l hx hy =
    ap (insert x) (insert_before y z l hy)
    ∙ insert_after x y (z ∷ l) (is_after_between x y z hx hy)
    ∙ ap (λ (t : List PlayerId). y ∷ t) (insert_after x z l hx)
    ∙ sym (ap (insert y) (insert_after x z l hx) ∙ insert_before y z (insert x l) hy)

insert_comm : (x y : PlayerId) (l : List PlayerId) → insert x (insert y l) ≡ insert y (insert x l)
unfolding insert_by
insert_comm x y [] = insert_front x y [] refl refl
insert_comm x y (z ∷ l) = elim (Bool-cases (is_after x z)) [
  | inl xz ↦ elim (Bool-cases (is_after y z)) [
    | inl yz ↦
        ap (insert x) (insert_after y z l yz)
        ∙ insert_after x z (insert y l) xz
        ∙ ap (λ (t : List PlayerId). z ∷ t) (insert_comm x y l)
        ∙ sym (ap (insert y) (insert_after x z l xz) ∙ insert_after y z (insert x l) yz)
    | inr yz ↦ insert_apart x y z l xz yz
  ]
  | inr xz ↦ elim (Bool-cases (is_after y z)) [
    | inl yz ↦ sym (insert_apart y x z l yz xz)
    | inr yz ↦
        ap (insert x) (insert_before y z l yz)
        ∙ insert_front x y (z ∷ l) (insert_before x z l xz) (insert_before y z l yz)
        ∙ sym (ap (insert y) (insert_before x z l xz))
  ]
]

sort_by-foldr : (ids : List PlayerId) → sort_by compare_utf16 ids ≡ foldr insert [] ids
unfolding sort_by
sort_by-foldr [] = refl
sort_by-foldr (x ∷ xs) = ap (insert x) (sort_by-foldr xs)

sort_by-eq :
    {ids others : List PlayerId}
    → Perm ids others
    → sort_by compare_utf16 ids ≡ sort_by compare_utf16 others
sort_by-eq {ids} {others} p =
    sort_by-foldr ids
    ∙ Perm.foldr-eq (List.is_set (List.is_set ℕ_set)) insert insert_comm p []
    ∙ sym (sort_by-foldr others)

created_ids :
    (ids : List PlayerId) (r : PlayerRegistry)
    → create_player_registry ids ≡ created r
    → r.ids ≡ sort_by compare_utf16 ids
unfolding create_player_registry
created_ids ids r h =
    if-elim (λ c. c ≡ created r → r.ids ≡ sort_by compare_utf16 ids)
      (ltb (length ids) min_players_per_match || ltb max_players_per_match (length ids))
      (λ outside k. absurd (cc)) (λ fits k. go (check_ids [] ids) k) h
  where
    go : (e : Option RegistryError) → register ids e ≡ created r → r.ids ≡ sort_by compare_utf16 ids
    go (some e) k = absurd (cc)
    go none k = cc

-- Two registries that are created from the same ids, in whatever order, are the same.
pub create_player_registry-canonical :
    (ids others : List PlayerId) (r q : PlayerRegistry)
    → Perm ids others
    → create_player_registry ids ≡ created r
    → create_player_registry others ≡ created q
    → r ≡ q
create_player_registry-canonical ids others r q p h k =
    ap (λ (l : List PlayerId). record { ids = l })
      (created_ids ids r h ∙ sort_by-eq p ∙ sym (created_ids others q k))
