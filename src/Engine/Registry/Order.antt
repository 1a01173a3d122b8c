-- ===== src/Engine/Registry/Order.antt =====
-- The order of `compareUtf16`.
use europa_neo.Prelude.{
  ℕ, zero, suc, ◌≡◌, refl, ap₂, arith, ltb, ◌==◌, if◌then◌else◌, if-elim, [], ◌∷◌, length, Bool,
  true, false, sub_ℕ, leb, ◌-◌, pos,
}
use europa_neo.Core.PlayerId.{PlayerId}
use europa_neo.Engine.Registry.{compare_utf16, is_positive}

-- `a` comes after `b`.
abbrev pub is_after : PlayerId → PlayerId → Bool
is_after a b = is_positive (compare_utf16 a b)

is_positive-pos : (n : ℕ) → is_positive (pos n) ≡ ltb 0 n
is_positive-pos zero = refl
is_positive-pos (suc n) = ground arith

is_positive-sub_ℕ : (a b : ℕ) → is_positive (sub_ℕ a b) ≡ ltb b a
is_positive-sub_ℕ a b =
    if-elim (λ z. is_positive z ≡ ltb b a) (leb b a)
      (λ above. ground (arith, is_positive-pos (a - b))) (λ below. ground arith)

is_after-cons :
    (a b : ℕ) (as' bs : PlayerId)
    → is_after (a ∷ as') (b ∷ bs) ≡ (if a == b then is_after as' bs else ltb b a)
unfolding compare_utf16
is_after-cons a b as' bs =
    if-elim (λ z. is_positive z ≡ (if a == b then is_after as' bs else ltb b a)) (a == b)
      (λ same. ground arith) (λ differ. ground (arith, is_positive-sub_ℕ a b))

is_after-nil : (bs : PlayerId) → is_after [] bs ≡ false
unfolding compare_utf16
is_after-nil bs = ground (arith, is_positive-sub_ℕ 0 (length bs))

is_after_longer : (a : ℕ) (as' : PlayerId) → is_after (a ∷ as') [] ≡ true
unfolding compare_utf16
is_after_longer a as' = ground (arith, is_positive-sub_ℕ (suc (length as')) 0)

pub is_after_antisym : (a b : PlayerId) → is_after a b ≡ false → is_after b a ≡ false → a ≡ b
is_after_antisym [] [] h k = refl
is_after_antisym [] (b ∷ bs) h k = absurd (ground (arith, is_after_longer b bs))
is_after_antisym (a ∷ as') [] h k = absurd (ground (arith, is_after_longer a as'))
is_after_antisym (a ∷ as') (b ∷ bs) h k =
    let ab = is_after-cons a b as' bs in
    let ba = is_after-cons b a bs as' in
    let head : a ≡ b = ground (arith, ab, ba) in
    ap₂ (λ (x : ℕ) (xs : PlayerId). x ∷ xs) head
      (is_after_antisym as' bs (ground (arith, ab, ba, head)) (ground (arith, ab, ba, head)))

pub is_after_asym : (a b : PlayerId) → is_after a b ≡ true → is_after b a ≡ false
is_after_asym [] b h = absurd (ground (arith, is_after-nil b))
is_after_asym (a ∷ as') [] h = is_after-nil (a ∷ as')
is_after_asym (a ∷ as') (b ∷ bs) h =
    ground (arith, is_after-cons a b as' bs, is_after-cons b a bs as', is_after_asym as' bs)

-- What is after `c` is after what is not after `c`.
pub is_after_between :
    (a b c : PlayerId) → is_after a c ≡ true → is_after b c ≡ false → is_after a b ≡ true
is_after_between [] b c h k = absurd (ground (arith, is_after-nil c))
is_after_between (a ∷ as') [] c h k = is_after_longer a as'
is_after_between (a ∷ as') (b ∷ bs) [] h k = absurd (ground (arith, is_after_longer b bs))
is_after_between (a ∷ as') (b ∷ bs) (c ∷ cs) h k = ground (
  arith,
  is_after-cons a b as' bs,
  is_after-cons a c as' cs,
  is_after-cons b c bs cs,
  is_after_between as' bs cs,
)
