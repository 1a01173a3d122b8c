-- ===== src/Matchmaking/Identities/Lookups.antt =====
-- What is found in a map, and in the table of owners, after a change.
use europa_neo.Prelude.{
  ◌≡◌, refl, sym, ◌∙◌, ap, ◌⊎◌, inl, inr, true, false, Bool-cases, if-elim, Option, none, some,
}
use europa_neo.Core.PlayerId.{PlayerId, eq_id}
use europa_neo.Engine.Registry.Checks.{eq_id_refl, eq_id_sound}
use europa_neo.Matchmaking.OrderedMap.{OrderedMap, get, put, delete}
use europa_neo.Matchmaking.OrderedMap.Laws.{IsMap, get-put, get-delete, delete-IsMap}
use europa_neo.Matchmaking.Types.{Text}
use europa_neo.Matchmaking.Store.Laws.{eq_id-IsEquality}
use europa_neo.Matchmaking.Lifecycle.{eq_optional}
use europa_neo.Matchmaking.Identities.{drop_owned}

pub same_value {ℓ} : {A : Type ℓ} {a b : A} → some a ≡ some b → a ≡ b
same_value e = cc

pub same_lookup {ℓ} : {A : Type ℓ} {o : Option A} {a b : A} → o ≡ some a → o ≡ some b → a ≡ b
same_lookup e f = same_value (sym e ∙ f)

module _ {ℓ} {V : Type ℓ} (m : OrderedMap Text V) (k : Text) where
  pub put_self : (v : V) → get eq_id (put eq_id m k v) k ≡ some v
  put_self v = rw (get-put eq_id-IsEquality m k v k, eq_id_refl k) refl

  pub put_other :
      (v : V) (j : Text) → eq_id k j ≡ false → get eq_id (put eq_id m k v) j ≡ get eq_id m j
  put_other v j other = rw (get-put eq_id-IsEquality m k v j, other) refl

  -- What a lookup after a put finds.
  pub after_put :
      (v : V) (j : Text) (w : V)
      → get eq_id (put eq_id m k v) j ≡ some w
      → ((k ≡ j) × (v ≡ w)) ⊎ ((eq_id k j ≡ false) × (get eq_id m j ≡ some w))
  after_put v j w e = elim (Bool-cases (eq_id k j)) [
    | inl same ↦
        let there = eq_id_sound k j same in
        inl (there, same_lookup (put_self v) (ap (λ i. get eq_id (put eq_id m k v) i) there ∙ e))
    | inr other ↦ inr (other, sym (put_other v j other) ∙ e)
  ]

  delete_self : IsMap m → get eq_id (delete eq_id m k) k ≡ none
  delete_self h = rw (get-delete eq_id-IsEquality m k k h, eq_id_refl k) refl

  pub delete_other :
      (j : Text) → IsMap m → eq_id k j ≡ false → get eq_id (delete eq_id m k) j ≡ get eq_id m j
  delete_other j h other = rw (get-delete eq_id-IsEquality m k j h, other) refl

  pub after_delete :
      (j : Text) (w : V)
      → IsMap m
      → get eq_id (delete eq_id m k) j ≡ some w
      → (eq_id k j ≡ false) × (get eq_id m j ≡ some w)
  after_delete j w h e = elim (Bool-cases (eq_id k j)) [
    | inl same ↦
        let gone =
          sym (delete_self h)
          ∙ ap (λ i. get eq_id (delete eq_id m k) i) (eq_id_sound k j same)
          ∙ e in
        absurd (cc)
    | inr other ↦ (other, sym (delete_other j h other) ∙ e)
  ]

module _ (owners : OrderedMap Text PlayerId) (one : IsMap owners) (id : PlayerId) where
  pub drop_owned-IsMap : (o : Option Text) → IsMap (drop_owned o id owners)
  drop_owned-IsMap none = one
  drop_owned-IsMap (some k) =
      if-elim IsMap (eq_optional (get eq_id owners k) (some id))
        (λ _. delete-IsMap eq_id-IsEquality owners k one) (λ _. one)

  eq_optional-some : (o : Option PlayerId) → o ≡ some id → eq_optional o (some id) ≡ true
  eq_optional-some o e = rw e (eq_id_refl id)

  pub eq_optional_sound : (o : Option PlayerId) → eq_optional o (some id) ≡ true → o ≡ some id
  eq_optional_sound none e = absurd (cc)
  eq_optional_sound (some i) e = ap some (eq_id_sound i id e)

  -- What is left was there, and is not the guest's dropped key.
  pub drop_owned-left :
      (o : Option Text) (key : Text) (i : PlayerId)
      → get eq_id (drop_owned o id owners) key ≡ some i
      → (get eq_id owners key ≡ some i) × (o ≡ some key → i ≡ id → ⊥)
  drop_owned-left none key i = λ e. (e, λ q _. absurd (cc))
  drop_owned-left (some k) key i = elim (Bool-cases (eq_optional (get eq_id owners k) (some id))) [
    | inl mine ↦ rw mine (λ e.
        let (other, there) = after_delete owners k key i one e in
        (
          there,
          λ q _.
              let same : eq_id k key ≡ true =
                ap (λ j. eq_id k j) (sym (same_value q)) ∙ eq_id_refl k in
              absurd (cc),
        ))
    | inr others ↦ rw others (λ e. (
      e,
      λ q p.
          let mine =
            eq_optional-some (get eq_id owners k)
              (ap (λ j. get eq_id owners j) (same_value q) ∙ e ∙ ap some p) in
          absurd (cc),
    ))
  ]

  -- The keys of the other guests stay.
  pub drop_owned-others :
      (o : Option Text) (key : Text) (i : PlayerId)
      → get eq_id owners key ≡ some i
      → eq_id id i ≡ false
      → get eq_id (drop_owned o id owners) key ≡ some i
  drop_owned-others none key i e other = e
  drop_owned-others (some k) key i e other =
      elim (Bool-cases (eq_optional (get eq_id owners k) (some id))) [
        | inr others ↦ rw others e
        | inl mine ↦ rw mine (elim (Bool-cases (eq_id k key)) [
          | inl same ↦
              let p : id ≡ i =
                same_lookup (eq_optional_sound (get eq_id owners k) mine)
                  (ap (λ j. get eq_id owners j) (eq_id_sound k key same) ∙ e) in
              let self : eq_id id i ≡ true = ap (λ j. eq_id id j) (sym p) ∙ eq_id_refl id in
              absurd (cc)
          | inr apart ↦ delete_other owners k key one apart ∙ e
        ])
      ]
