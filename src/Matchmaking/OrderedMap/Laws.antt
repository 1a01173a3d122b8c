-- ===== src/Matchmaking/OrderedMap/Laws.antt =====
-- The reads of a map after a write or a deletion.
use europa_neo.Prelude.{
  ◌≡◌, refl, sym, ap, Bool, true, false, if◌then◌else◌, if-elim, Option, none, some, [], ◌∷◌,
  Bool-cases, inl, inr, ◌⊎◌, Memᴰ, ◌∙◌,
}
use mathlib.Core.List.Memᴰ
use europa_neo.Matchmaking.OrderedMap.{IsEquality, OrderedMap, get, put, delete, keys}

module _ {ℓ κ} {K : Type ℓ} {V : Type κ} where
  -- No key stands twice.
  abbrev pub IsMap : OrderedMap K V → Type ℓ
  IsMap [] = Unit
  IsMap (e ∷ m) = (Memᴰ e.0 (keys m) → ⊥) × IsMap m

module _ {ℓ} {K : Type ℓ} {eq : K → K → Bool} (law : IsEquality eq) where
  eq_apart : (a k j : K) → eq a k ≡ false → eq a j ≡ true → eq k j ≡ false
  eq_apart a k j other found = elim (Bool-cases (eq k j)) [
    | inl same ↦
        let joined : eq a k ≡ true =
          rw (law.sound a j found ∙ sym (law.sound k j same)) (law.reflexive k) in
        absurd (cc)
    | inr apart ↦ apart
  ]

module _ {ℓ κ} {K : Type ℓ} {V : Type κ} {eq : K → K → Bool} (law : IsEquality eq) where
  choose_twice :
      (b : Bool) (x y z : Option V) → (if b then x else z) ≡ (if b then x else (if b then y else z))
  choose_twice true x y z = refl
  choose_twice false x y z = refl

  choose_none : (b : Bool) → ◌≡◌ {A = Option V} none (if b then none else none)
  choose_none true = refl
  choose_none false = refl

  pub get-put :
      (m : OrderedMap K V) (k : K) (v : V) (j : K)
      → get eq (put eq m k v) j ≡ (if eq k j then some v else get eq m j)
  unfolding get put
  get-put [] k v j = refl
  get-put (e ∷ m) k v j = elim (Bool-cases (eq e.0 k)) [
    | inl same ↦ rw (same, law.sound e.0 k same) (choose_twice (eq k j) _ _ _)
    | inr other ↦ elim (Bool-cases (eq e.0 j)) [
      | inl found ↦ rw (other, found, eq_apart law e.0 k j other found) refl
      | inr lost ↦ rw (other, lost) (get-put m k v j)
    ]
  ]

  get-none : (m : OrderedMap K V) (j : K) → (Memᴰ j (keys m) → ⊥) → get eq m j ≡ none
  unfolding get
  get-none [] j out = refl
  get-none (e ∷ m) j out = elim (Bool-cases (eq e.0 j)) [
    | inl found ↦ absurd (out (Memᴰ.head (sym (law.sound e.0 j found))))
    | inr lost ↦ rw lost (get-none m j (λ i. out (Memᴰ.tail i)))
  ]

  pub get-delete :
      (m : OrderedMap K V) (k j : K)
      → IsMap m
      → get eq (delete eq m k) j ≡ (if eq k j then none else get eq m j)
  unfolding get delete
  get-delete [] k j h = choose_none (eq k j)
  get-delete (e ∷ m) k j h = elim (Bool-cases (eq e.0 k)) [
    | inl same ↦
        rw (same, ← (law.sound e.0 k same))
          (elim (Bool-cases (eq e.0 j)) [
            | inl found ↦ rw found (get-none m j (λ i. h.0 (Memᴰ.cast (law.sound e.0 j found) i)))
            | inr lost ↦ rw lost refl
          ])
    | inr other ↦ elim (Bool-cases (eq e.0 j)) [
      | inl found ↦ rw (other, found, eq_apart law e.0 k j other found) refl
      | inr lost ↦ rw (other, lost) (get-delete m k j h.1)
    ]
  ]

  in_keys-put :
      (m : OrderedMap K V) (k : K) (v : V) (j : K)
      → Memᴰ j (keys (put eq m k v))
      → (j ≡ k) ⊎ Memᴰ j (keys m)
  unfolding put
  in_keys-put [] k v j = λ i. inl (Memᴰ.eq_of_singleton i)
  in_keys-put (e ∷ m) k v j =
      if-elim (λ (out : OrderedMap K V). Memᴰ j (keys out) → (j ≡ k) ⊎ Memᴰ j (keys (e ∷ m)))
        (eq e.0 k) (λ _ i. inr i)
        (λ _ i. elim (Memᴰ.cases_cons i) [
          | inl first ↦ inr (Memᴰ.head first)
          | inr later ↦ elim (in_keys-put m k v j later) [
            | inl new ↦ inl new
            | inr old ↦ inr (Memᴰ.tail old)
          ]
        ])

  pub put-IsMap : (m : OrderedMap K V) (k : K) (v : V) → IsMap m → IsMap (put eq m k v)
  unfolding put
  put-IsMap [] k v h = (λ i. elim i [ ], tt)
  put-IsMap (e ∷ m) k v h =
      if-elim IsMap (eq e.0 k) (λ _. h)
        (λ other. (
          λ i. elim (in_keys-put m k v e.0 i) [
            | inl same ↦ let equal : eq e.0 k ≡ true = rw same (law.reflexive k) in absurd (cc)
            | inr old ↦ h.0 old
          ],
          put-IsMap m k v h.1,
        ))

  in_keys-delete : (m : OrderedMap K V) (k j : K) → Memᴰ j (keys (delete eq m k)) → Memᴰ j (keys m)
  unfolding delete
  in_keys-delete [] k j = λ i. i
  in_keys-delete (e ∷ m) k j =
      if-elim (λ (out : OrderedMap K V). Memᴰ j (keys out) → Memᴰ j (keys (e ∷ m))) (eq e.0 k)
        (λ _ i. Memᴰ.tail i)
        (λ _ i. elim (Memᴰ.cases_cons i) [
          | inl first ↦ Memᴰ.head first
          | inr later ↦ Memᴰ.tail (in_keys-delete m k j later)
        ])

  pub delete-IsMap : (m : OrderedMap K V) (k : K) → IsMap m → IsMap (delete eq m k)
  unfolding delete
  delete-IsMap [] k h = h
  delete-IsMap (e ∷ m) k h =
      if-elim IsMap (eq e.0 k) (λ _. h.1)
        (λ _. (λ i. h.0 (in_keys-delete m k e.0 i), delete-IsMap m k h.1))

  pub put-put : (m : OrderedMap K V) (k : K) (v w : V) → put eq (put eq m k v) k w ≡ put eq m k w
  unfolding put
  put-put [] k v w = rw (law.reflexive k) refl
  put-put (e ∷ m) k v w = elim (Bool-cases (eq e.0 k)) [
    | inl same ↦ rw (same, same) refl
    | inr other ↦ rw (other, other) (ap (λ (r : OrderedMap K V). e ∷ r) (put-put m k v w))
  ]

  -- A new key that is deleted again leaves nothing.
  pub delete-put_new :
      (m : OrderedMap K V) (k : K) (v : V) → get eq m k ≡ none → delete eq (put eq m k v) k ≡ m
  unfolding get put delete
  delete-put_new [] k v = λ _. rw (law.reflexive k) refl
  delete-put_new (e ∷ m) k v = elim (Bool-cases (eq e.0 k)) [
    | inl same ↦ rw same (λ h. absurd (cc))
    | inr other ↦
        rw (other, other) (λ h. ap (λ (r : OrderedMap K V). e ∷ r) (delete-put_new m k v h))
  ]
