-- ===== src/Matchmaking/Identities/Invariant.antt =====
-- The invariant of the registry of guests: who holds a handle.
use europa_neo.Prelude.{
  ◌≡◌, sym, ◌∙◌, ap, subst, inl, inr, true, false, Bool-cases, if◌then◌else◌, if-elim, Option, none,
  some, [],
}
use europa_neo.Core.PlayerId.{PlayerId, eq_id}
use europa_neo.Engine.Registry.Checks.{eq_id_refl, eq_id_sound}
use europa_neo.Matchmaking.OrderedMap.{OrderedMap, get, put}
use europa_neo.Matchmaking.OrderedMap.Laws.{IsMap, put-IsMap}
use europa_neo.Matchmaking.Types.{Text}
use europa_neo.Matchmaking.Store.Laws.{eq_id-IsEquality}
use europa_neo.Matchmaking.Lifecycle.{eq_optional}
use europa_neo.Matchmaking.Identities.{GuestIdentity, IdentityRegistry, drop_owned, with_guest}
use europa_neo.Matchmaking.Identities.Lookups.{
  same_value, same_lookup, put_self, put_other, after_put, drop_owned-IsMap, drop_owned-left,
  drop_owned-others, eq_optional_sound,
}

abbrev pub lowered : (Text → Text) → Option Text → Option Text
lowered to_lower_case none = none
lowered to_lower_case (some handle) = some (to_lower_case handle)

-- The key of a guest is its handle in lower case.
abbrev pub IsKeyed : (Text → Text) → GuestIdentity → Type 0
IsKeyed to_lower_case g = g.handle_key ≡ lowered to_lower_case g.handle

-- Each guest stands at its id and its key is its handle in lower case; a key belongs to a guest exactly if
-- the guest has that key.
pub record IsRegistry (to_lower_case : Text → Text) (r : IdentityRegistry) : Type 0 where
  pub one_guest : IsMap r.identities
  pub one_owner : IsMap r.handle_owners
  pub at_id : (id : PlayerId) (g : GuestIdentity) → get eq_id r.identities id ≡ some g → g.id ≡ id
  pub keyed :
      (id : PlayerId) (g : GuestIdentity)
      → get eq_id r.identities id ≡ some g
      → IsKeyed to_lower_case g
  pub owned :
      (key : Text) (id : PlayerId)
      → get eq_id r.handle_owners key ≡ some id
      → (g : GuestIdentity) × (get eq_id r.identities id ≡ some g) × (g.handle_key ≡ some key)
  pub held :
      (id : PlayerId) (g : GuestIdentity) (key : Text)
      → get eq_id r.identities id ≡ some g
      → g.handle_key ≡ some key
      → get eq_id r.handle_owners key ≡ some id

-- Two guests with one id are one guest.
pub same_guest :
    (r : IdentityRegistry) (i j : PlayerId) (a b : GuestIdentity)
    → i ≡ j
    → get eq_id r.identities i ≡ some a
    → get eq_id r.identities j ≡ some b
    → a ≡ b
same_guest r i j a b p ea eb = same_lookup ea (ap (λ k. get eq_id r.identities k) p ∙ eb)

pub key_of : {a b : GuestIdentity} → a ≡ b → a.handle_key ≡ b.handle_key
key_of p = ap (λ (g : GuestIdentity). g.handle_key) p

pub unequal : (i j : PlayerId) → (i ≡ j → ⊥) → eq_id i j ≡ false
unequal i j h = elim (Bool-cases (eq_id i j)) [
  | inl same ↦ absurd (h (eq_id_sound i j same))
  | inr other ↦ other
]

module _ {f : Text → Text} (r : IdentityRegistry) (h : IsRegistry f r) (g new : GuestIdentity)
    (known : get eq_id r.identities g.id ≡ some g) (same_id : new.id ≡ g.id) where
  put-at_id :
      (id : PlayerId) (x : GuestIdentity)
      → get eq_id (put eq_id r.identities g.id new) id ≡ some x
      → x.id ≡ id
  put-at_id id x e = elim (after_put r.identities g.id new id x e) [
    | inl (p, q) ↦ ap (λ (y : GuestIdentity). y.id) (sym q) ∙ same_id ∙ p
    | inr (_, there) ↦ h.at_id id x there
  ]

  put-IsKeyed :
      IsKeyed f new
      → (id : PlayerId) (x : GuestIdentity)
      → get eq_id (put eq_id r.identities g.id new) id ≡ some x
      → IsKeyed f x
  put-IsKeyed k id x e = elim (after_put r.identities g.id new id x e) [
    | inl (p, q) ↦ subst (IsKeyed f) q k
    | inr (_, there) ↦ h.keyed id x there
  ]

  -- A guest that keeps its handle.
  pub with_guest-IsRegistry :
      new.handle ≡ g.handle → new.handle_key ≡ g.handle_key → IsRegistry f (with_guest r g.id new)
  with_guest-IsRegistry same_handle same_key = record {
    one_guest = put-IsMap eq_id-IsEquality r.identities g.id new h.one_guest;
    one_owner = h.one_owner;
    at_id = put-at_id;
    keyed = put-IsKeyed (same_key ∙ h.keyed g.id g known ∙ ap (lowered f) (sym same_handle));
    owned = λ key id e.
        let (x, there, its) = h.owned key id e in
        elim (Bool-cases (eq_id g.id id)) [
          | inl same ↦
              let p = eq_id_sound g.id id same in
              (
                new,
                ap (λ i. get eq_id (put eq_id r.identities g.id new) i) (sym p)
                    ∙ put_self r.identities g.id new,
                same_key ∙ key_of (same_guest r g.id id g x p known there) ∙ its,
              )
          | inr other ↦ (x, put_other r.identities g.id new id other ∙ there, its)
        ];
    held = λ id x key e its. elim (after_put r.identities g.id new id x e) [
      | inl (p, q) ↦ h.held g.id g key known (sym same_key ∙ key_of q ∙ its) ∙ ap some p
      | inr (_, there) ↦ h.held id x key there its
    ];
  }

  -- A guest that takes a key, which no other guest has.
  module _ (key : Text) (new_key : new.handle_key ≡ some key) (its_key : IsKeyed f new)
      (free : (i : PlayerId) → get eq_id r.handle_owners key ≡ some i → i ≡ g.id) where
    abbrev kept : OrderedMap Text PlayerId
    kept =
        if eq_optional g.handle_key (some key)
        then r.handle_owners
        else drop_owned g.handle_key g.id r.handle_owners

    kept-IsMap : IsMap kept
    kept-IsMap =
        if-elim IsMap (eq_optional g.handle_key (some key)) (λ _. h.one_owner)
          (λ _. drop_owned-IsMap r.handle_owners h.one_owner g.id g.handle_key)

    kept-others :
        (k : Text) (i : PlayerId)
        → get eq_id r.handle_owners k ≡ some i
        → eq_id g.id i ≡ false
        → get eq_id kept k ≡ some i
    kept-others k i e other =
        if-elim (λ (m : OrderedMap Text PlayerId). get eq_id m k ≡ some i)
          (eq_optional g.handle_key (some key)) (λ _. e)
          (λ _. drop_owned-others r.handle_owners h.one_owner g.id g.handle_key k i e other)

    -- A key that is left, and is not the new one, was there and is another guest's.
    kept-left :
        (k : Text) (i : PlayerId)
        → eq_id key k ≡ false
        → get eq_id kept k ≡ some i
        → (get eq_id r.handle_owners k ≡ some i) × (i ≡ g.id → ⊥)
    kept-left k i apart =
        if-elim
          (λ (m : OrderedMap Text PlayerId).
            get eq_id m k ≡ some i → (get eq_id r.handle_owners k ≡ some i) × (i ≡ g.id → ⊥))
          (eq_optional g.handle_key (some key))
          (λ same e. (
            e,
            λ p.
                let (x, there, its) = h.owned k i e in
                let q = eq_optional_sound [] tt key g.handle_key same in
                let both : some key ≡ some k =
                  sym q ∙ key_of (same_guest r g.id i g x (sym p) known there) ∙ its in
                let equal : eq_id key k ≡ true =
                  ap (λ j. eq_id key j) (sym (same_value both)) ∙ eq_id_refl key in
                absurd (cc),
          ))
          (λ _ e.
            let (was, lost) = drop_owned-left r.handle_owners h.one_owner g.id g.handle_key k i e in
            let (x, there, its) = h.owned k i was in
            (was, λ p. lost (key_of (same_guest r g.id i g x (sym p) known there) ∙ its) p))

    pub taken-IsRegistry : IsRegistry f (record r {
      identities = put eq_id r.identities g.id new;
      handle_owners = put eq_id kept key g.id;
    })
    taken-IsRegistry = record {
      one_guest = put-IsMap eq_id-IsEquality r.identities g.id new h.one_guest;
      one_owner = put-IsMap eq_id-IsEquality kept key g.id kept-IsMap;
      at_id = put-at_id;
      keyed = put-IsKeyed its_key;
      owned = λ k i e. elim (after_put kept key g.id k i e) [
        | inl (p, q) ↦ (
          new,
          ap (λ j. get eq_id (put eq_id r.identities g.id new) j) (sym q)
              ∙ put_self r.identities g.id new,
          new_key ∙ ap some p,
        )
        | inr (apart, left) ↦
            let (was, other) = kept-left k i apart left in
            let (x, there, its) = h.owned k i was in
            (
              x,
              put_other r.identities g.id new i (unequal g.id i (λ p. other (sym p))) ∙ there,
              its,
            )
      ];
      held = λ i x k e its. elim (after_put r.identities g.id new i x e) [
        | inl (p, q) ↦
            let same : key ≡ k = same_value (sym new_key ∙ key_of q ∙ its) in
            ap (λ j. get eq_id (put eq_id kept key g.id) j) (sym same)
            ∙ put_self kept key g.id
            ∙ ap some p
        | inr (other, there) ↦
            let was = h.held i x k there its in
            let apart = unequal key k (λ p.
              let q = free i (ap (λ j. get eq_id r.handle_owners j) p ∙ was) in
              let self : eq_id g.id i ≡ true = ap (λ j. eq_id g.id j) q ∙ eq_id_refl g.id in
              absurd (cc)) in
            put_other kept key g.id k apart ∙ kept-others k i was other
      ];
    }
