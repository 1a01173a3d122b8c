-- ===== src/Engine/Registry/Checks.antt =====
-- The checks that `createPlayerRegistry` makes of the ids.
use europa_neo.Prelude.{
  ℕ, ◌≡◌, refl, sym, ap, ap₂, arith, ◌⊎◌, inl, inr, true, false, not, if-elim, Bool-cases, List, [],
  ◌∷◌, ◌++◌, Memᴰ, All, Option, some, none, Distinct, ==→≡,
}
use mathlib.Core.List.Memᴰ
use europa_neo.Core.PlayerId.{PlayerId, eq_id, is_player_id}
use europa_neo.Engine.Registry.{id_mem, check_ids, RegistryError, not_canonical, duplicate}

pub eq_id_refl : (id : PlayerId) → eq_id id id ≡ true
eq_id_refl [] = refl
eq_id_refl (x ∷ xs) = ground (arith, eq_id_refl xs)

pub eq_id_sound : (a b : PlayerId) → eq_id a b ≡ true → a ≡ b
eq_id_sound [] [] h = refl
eq_id_sound [] (y ∷ ys) h = cc
eq_id_sound (x ∷ xs) [] h = cc
eq_id_sound (x ∷ xs) (y ∷ ys) h =
    ap₂ (λ (a : ℕ) (b : PlayerId). a ∷ b) (==→≡ x y (ground arith))
      (eq_id_sound xs ys (ground arith))

id_mem_sound : (id : PlayerId) (xs : List PlayerId) → id_mem id xs ≡ true → Memᴰ id xs
id_mem_sound id [] h = absurd (cc)
id_mem_sound id (x ∷ xs) h = elim (Bool-cases (eq_id x id)) [
  | inl same ↦ Memᴰ.head (sym (eq_id_sound x id same))
  | inr other ↦ Memᴰ.tail (id_mem_sound id xs (ground arith))
]

id_mem_complete : (id : PlayerId) (xs : List PlayerId) → Memᴰ id xs → id_mem id xs ≡ true
id_mem_complete id [] m = elim m [ ]
id_mem_complete id (x ∷ xs) (Memᴰ.head e) = let self = eq_id_refl id in rw (sym e, self) refl
id_mem_complete id (x ∷ xs) (Memᴰ.tail m) = ground (arith, id_mem_complete id xs m)

-- Ids that are canonical, differ from one another, and were not seen before.
pub record AreFresh (seen ids : List PlayerId) : Type 0 where
  pub canonical : All (λ id. is_player_id id ≡ true) ids
  pub distinct : Distinct ids
  pub unseen : (id : PlayerId) → Memᴰ id ids → Memᴰ id seen → ⊥

-- The first id that fails: it is not canonical, or it stands before it or was seen.
pub data IsOffence (seen ids : List PlayerId) : RegistryError → Type 0 where
  malformed :
      (before after : List PlayerId) (id : PlayerId)
      → ids ≡ before ++ id ∷ after
      → AreFresh seen before
      → is_player_id id ≡ false
      → IsOffence seen ids not_canonical
  repeated :
      (before after : List PlayerId) (id : PlayerId)
      → ids ≡ before ++ id ∷ after
      → AreFresh seen before
      → is_player_id id ≡ true
      → Memᴰ id before ⊎ Memᴰ id seen
      → IsOffence seen ids duplicate

abbrev pub IsChecked : List PlayerId → List PlayerId → Option RegistryError → Type 0
IsChecked seen ids none = AreFresh seen ids
IsChecked seen ids (some e) = IsOffence seen ids e

no_ids-AreFresh : (seen : List PlayerId) → AreFresh seen []
no_ids-AreFresh seen = record { canonical = tt; distinct = tt; unseen = λ id m _. elim m [ ] }

-- One more id in front of those that were checked after it.
AreFresh-cons :
    (seen ids : List PlayerId) (id : PlayerId)
    → is_player_id id ≡ true
    → (Memᴰ id seen → ⊥)
    → AreFresh (id ∷ seen) ids
    → AreFresh seen (id ∷ ids)
AreFresh-cons seen ids id ok new f = record {
  canonical = (ok, f.canonical);
  distinct = ((λ m. f.unseen id m (Memᴰ.head refl)), f.distinct);
  unseen = λ a m s. elim (Memᴰ.cases_cons m) [
    | inl first ↦ new (rw (sym first) s)
    | inr later ↦ f.unseen a later (Memᴰ.tail s)
  ];
}

IsChecked-cons :
    (seen ids : List PlayerId) (id : PlayerId) (o : Option RegistryError)
    → is_player_id id ≡ true
    → (Memᴰ id seen → ⊥)
    → IsChecked (id ∷ seen) ids o
    → IsChecked seen (id ∷ ids) o
IsChecked-cons seen ids id none ok new f = AreFresh-cons seen ids id ok new f
IsChecked-cons seen ids id (some e) ok new (malformed before after x at_ f bad) =
    malformed (id ∷ before) after x (ap (λ (l : List PlayerId). id ∷ l) at_)
      (AreFresh-cons seen before id ok new f) bad
IsChecked-cons seen ids id (some e) ok new (repeated before after x at_ f good twice) =
    repeated (id ∷ before) after x (ap (λ (l : List PlayerId). id ∷ l) at_)
      (AreFresh-cons seen before id ok new f) good
      (elim twice [
        | inl m ↦ inl (Memᴰ.tail m)
        | inr m ↦ elim (Memᴰ.cases_cons m) [
          | inl first ↦ inl (Memᴰ.head first)
          | inr later ↦ inr later
        ]
      ])

pub check_ids-IsChecked : (seen ids : List PlayerId) → IsChecked seen ids (check_ids seen ids)
unfolding check_ids
check_ids-IsChecked seen [] = no_ids-AreFresh seen
check_ids-IsChecked seen (id ∷ ids) =
    if-elim (IsChecked seen (id ∷ ids)) (not (is_player_id id))
      (λ bad. malformed [] ids id refl (no_ids-AreFresh seen) (ground arith))
      (λ good.
        if-elim (IsChecked seen (id ∷ ids)) (id_mem id seen)
          (λ known.
            repeated [] ids id refl (no_ids-AreFresh seen) (ground arith)
              (inr (id_mem_sound id seen known)))
          (λ unknown.
            IsChecked-cons seen ids id (check_ids (id ∷ seen) ids) (ground arith)
              (λ m. let there = id_mem_complete id seen m in absurd (cc))
              (check_ids-IsChecked (id ∷ seen) ids)))
