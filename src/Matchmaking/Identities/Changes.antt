-- ===== src/Matchmaking/Identities/Changes.antt =====
-- The invariant after a new guest, a release and the sweep.
use europa_neo.Prelude.{
  ℕ, ◌≡◌, refl, sym, ◌∙◌, ap, subst, inl, inr, Bool, false, not, Bool-cases, Memᴰ, Option, none,
  some, List, [], ◌∷◌, Whenever, Whenever-some, Whenever-bind, Whenever-if,
}
use europa_neo.Core.PlayerId.{PlayerId, eq_id, is_player_id}
use europa_neo.Engine.Registry.Checks.{eq_id_refl, eq_id_sound}
use europa_neo.Matchmaking.OrderedMap.{OrderedMap, get, delete, values, keys}
use europa_neo.Matchmaking.OrderedMap.Laws.{IsMap, put-IsMap, delete-IsMap}
use europa_neo.Matchmaking.Types.{Text}
use europa_neo.Matchmaking.Store.Laws.{eq_id-IsEquality}
use europa_neo.Matchmaking.Identities.{
  GuestIdentity, IdentityRegistry, is_known, is_grace_expired, release_record, with_guest,
  create_guest_identity, sweep_guests, sweep_expired, allocate_identity_id, mint_identity,
}
use europa_neo.Matchmaking.Identities.Lookups.{
  put_other, after_put, after_delete, delete_other, drop_owned-IsMap, drop_owned-left,
  drop_owned-others,
}
use europa_neo.Matchmaking.Identities.Invariant.{IsKeyed, IsRegistry, key_of, same_guest, unequal}

pub empty-IsRegistry :
    {f : Text → Text} (closed : Bool)
    → IsRegistry f (record { identities = []; handle_owners = []; closed = closed })
unfolding get
empty-IsRegistry closed = record {
  one_guest = tt;
  one_owner = tt;
  at_id = λ id g e. absurd (cc);
  keyed = λ id g e. absurd (cc);
  owned = λ key id e. absurd (cc);
  held = λ id g key e. absurd (cc);
}

module _ {f : Text → Text} (r : IdentityRegistry) (h : IsRegistry f r) where
  -- A new guest without a handle.
  minted-IsRegistry :
      (id : PlayerId) (now_ms : ℕ) (secret : Text)
      → get eq_id r.identities id ≡ none
      → IsRegistry f (with_guest r id (create_guest_identity id now_ms secret))
  minted-IsRegistry id now_ms secret fresh = record {
    one_guest = put-IsMap eq_id-IsEquality r.identities id _ h.one_guest;
    one_owner = h.one_owner;
    at_id = λ i x e. elim (after_put r.identities id _ i x e) [
      | inl (p, q) ↦ ap (λ (y : GuestIdentity). y.id) (sym q) ∙ p
      | inr (_, there) ↦ h.at_id i x there
    ];
    keyed = λ i x e. elim (after_put r.identities id _ i x e) [
      | inl (p, q) ↦ subst (IsKeyed f) q refl
      | inr (_, there) ↦ h.keyed i x there
    ];
    owned = λ key i e.
        let (x, there, its) = h.owned key i e in
        let apart = unequal id i (λ p.
          let gone = sym fresh ∙ ap (λ k. get eq_id r.identities k) p ∙ there in absurd (cc)) in
        (x, put_other r.identities id _ i apart ∙ there, its);
    held = λ i x key e its. elim (after_put r.identities id _ i x e) [
      | inl (p, q) ↦ let no_key = key_of q ∙ its in absurd (cc)
      | inr (_, there) ↦ h.held i x key there its
    ];
  }

  pub released-IsRegistry :
      (g : GuestIdentity) → get eq_id r.identities g.id ≡ some g → IsRegistry f (release_record r g)
  released-IsRegistry g known = record {
    one_guest = delete-IsMap eq_id-IsEquality r.identities g.id h.one_guest;
    one_owner = drop_owned-IsMap r.handle_owners h.one_owner g.id g.handle_key;
    at_id = λ i x e. h.at_id i x (after_delete r.identities g.id i x h.one_guest e).1;
    keyed = λ i x e. h.keyed i x (after_delete r.identities g.id i x h.one_guest e).1;
    owned = λ key i e.
        let (was, lost) = drop_owned-left r.handle_owners h.one_owner g.id g.handle_key key i e in
        let (x, there, its) = h.owned key i was in
        let apart =
          unequal g.id i
            (λ p. lost (key_of (same_guest r g.id i g x p known there) ∙ its) (sym p)) in
        (x, delete_other r.identities g.id i h.one_guest apart ∙ there, its);
    held = λ i x key e its.
        let (apart, there) = after_delete r.identities g.id i x h.one_guest e in
        drop_owned-others r.handle_owners h.one_owner g.id g.handle_key key i
          (h.held i x key there its) apart;
  }

  fresh_id :
      (draws : List PlayerId)
      → Whenever (λ id. get eq_id r.identities id ≡ none) (allocate_identity_id r draws)
  unfolding allocate_identity_id
  fresh_id [] = λ id e. absurd (cc)
  fresh_id (d ∷ draws) =
      Whenever-if (λ id. get eq_id r.identities id ≡ none) (not (is_player_id d))
        (λ _ id e. absurd (cc))
        (λ _.
          Whenever-if (λ id. get eq_id r.identities id ≡ none) (is_known (get eq_id r.identities d))
            (λ _. fresh_id draws)
            (λ new. Whenever-some (λ id. get eq_id r.identities id ≡ none) d (unknown _ new)))
    where
      unknown : (o : Option GuestIdentity) → is_known o ≡ false → o ≡ none
      unknown none e = refl
      unknown (some g) e = absurd (cc)

  pub mint_identity-IsRegistry :
      (draws : List PlayerId) (secret : Text) (now_ms : ℕ)
      → Whenever (λ out. IsRegistry f out.0) (mint_identity r draws secret now_ms)
  unfolding mint_identity
  mint_identity-IsRegistry draws secret now_ms =
      Whenever-bind (λ (out : IdentityRegistry × GuestIdentity). IsRegistry f out.0)
        (allocate_identity_id r draws)
        (λ id e.
          Whenever-some (λ (out : IdentityRegistry × GuestIdentity). IsRegistry f out.0) _
            (minted-IsRegistry id now_ms secret (fresh_id draws id e)))

in_keys :
    (m : OrderedMap PlayerId GuestIdentity) (id : PlayerId) (g : GuestIdentity)
    → get eq_id m id ≡ some g
    → Memᴰ id (keys m)
unfolding get
in_keys [] id g = λ e. absurd (cc)
in_keys (e ∷ m) id g = elim (Bool-cases (eq_id e.0 id)) [
  | inl same ↦ rw same (λ _. Memᴰ.head (sym (eq_id_sound e.0 id same)))
  | inr other ↦ rw other (λ q. Memᴰ.tail (in_keys m id g q))
]

-- The guest has another id than those.
abbrev Apart : GuestIdentity → List GuestIdentity → Type 0
Apart g [] = Unit
Apart g (x ∷ xs) = (eq_id g.id x.id ≡ false) × Apart g xs

-- Each guest is found at its id, and the ids differ.
abbrev AreFound : (PlayerId → Option GuestIdentity) → List GuestIdentity → Type 0
AreFound f [] = Unit
AreFound f (g ∷ gs) = (f g.id ≡ some g) × Apart g gs × AreFound f gs

Apart-found :
    (g : GuestIdentity) (f : PlayerId → Option GuestIdentity) (gs : List GuestIdentity)
    → ((x : GuestIdentity) → f x.id ≡ some x → eq_id g.id x.id ≡ false)
    → AreFound f gs
    → Apart g gs
Apart-found g f [] h a = tt
Apart-found g f (x ∷ xs) h a = (h x a.0, Apart-found g f xs h a.2)

AreFound-moved :
    (f f' : PlayerId → Option GuestIdentity) (g : GuestIdentity) (gs : List GuestIdentity)
    → ((x : GuestIdentity) → eq_id g.id x.id ≡ false → f x.id ≡ some x → f' x.id ≡ some x)
    → Apart g gs
    → AreFound f gs
    → AreFound f' gs
AreFound-moved f f' g [] h apart a = tt
AreFound-moved f f' g (x ∷ xs) h apart a =
    (h x apart.0 a.0, a.1, AreFound-moved f f' g xs h apart.1 a.2)

get-first :
    (e : PlayerId × GuestIdentity) (m : OrderedMap PlayerId GuestIdentity)
    → get eq_id (e ∷ m) e.0 ≡ some e.1
unfolding get
get-first e m = rw (eq_id_refl e.0) refl

get-later :
    (e : PlayerId × GuestIdentity) (m : OrderedMap PlayerId GuestIdentity) (id : PlayerId)
    → eq_id e.0 id ≡ false
    → get eq_id (e ∷ m) id ≡ get eq_id m id
unfolding get
get-later e m id other = rw other refl

values-AreFound :
    (m : OrderedMap PlayerId GuestIdentity)
    → IsMap m
    → ((id : PlayerId) (g : GuestIdentity) → get eq_id m id ≡ some g → g.id ≡ id)
    → AreFound (λ id. get eq_id m id) (values m)
values-AreFound [] one law = tt
values-AreFound (e ∷ m) one law =
    let apart : (id : PlayerId) (g : GuestIdentity)
        → get eq_id m id ≡ some g
        → eq_id e.0 id ≡ false =
      λ id g q.
        unequal e.0 id (λ p. one.0 (subst (λ k. Memᴰ k (keys m)) (sym p) (in_keys m id g q))) in
    let own : e.1.id ≡ e.0 = law e.0 e.1 (get-first e m) in
    let rest = values-AreFound m one.1 (λ id g q. law id g (get-later e m id (apart id g q) ∙ q)) in
    let others : Apart e.1 (values m) =
      Apart-found e.1 (λ id. get eq_id m id) (values m)
        (λ x q. ap (λ (i : PlayerId). eq_id i x.id) own ∙ apart x.id x q) rest in
    (
      ap (λ i. get eq_id (e ∷ m) i) own ∙ get-first e m,
      others,
      AreFound-moved (λ id. get eq_id m id) (λ id. get eq_id (e ∷ m) id) e.1 (values m)
          (λ x _ q. get-later e m x.id (apart x.id x q) ∙ q) others rest,
    )

module _ {f : Text → Text} (grace_ms now_ms : ℕ) where
  sweep_guests-IsRegistry :
      (gs : List GuestIdentity) (r : IdentityRegistry)
      → IsRegistry f r
      → AreFound (λ id. get eq_id r.identities id) gs
      → IsRegistry f (sweep_guests grace_ms now_ms gs r).0
  unfolding sweep_guests
  sweep_guests-IsRegistry [] r h a = h
  sweep_guests-IsRegistry (g ∷ gs) r h a = elim (Bool-cases (is_grace_expired grace_ms now_ms g)) [
    | inl lapsed ↦ rw lapsed (
        sweep_guests-IsRegistry gs (release_record r g) (released-IsRegistry r h g a.0) (
          AreFound-moved (λ id. get eq_id r.identities id)
            (λ id. get eq_id (delete eq_id r.identities g.id) id) g gs
            (λ x apart q. delete_other r.identities g.id x.id h.one_guest apart ∙ q) a.1 a.2))
    | inr stays ↦ rw stays (sweep_guests-IsRegistry gs r h a.2)
  ]

  pub sweep_expired-IsRegistry :
      (r : IdentityRegistry) → IsRegistry f r → IsRegistry f (sweep_expired grace_ms now_ms r).0
  unfolding sweep_expired
  sweep_expired-IsRegistry r h =
      sweep_guests-IsRegistry (values r.identities) r h
        (values-AreFound r.identities h.one_guest h.at_id)
