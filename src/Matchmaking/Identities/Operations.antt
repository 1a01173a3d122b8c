-- ===== src/Matchmaking/Identities/Operations.antt =====
-- The invariant after each operation on guests.
use europa_neo.Prelude.{
  ℕ, ◌≡◌, refl, sym, ◌∙◌, ap, Bool, true, false, not, if-elim, Option, none, some, List, Whenever,
  Whenever-some, Whenever-bind, Whenever-if,
}
use europa_neo.Core.PlayerId.{PlayerId, eq_id}
use europa_neo.Engine.Registry.Checks.{eq_id_sound}
use europa_neo.Matchmaking.OrderedMap.{get}
use europa_neo.Matchmaking.Types.{Text}
use europa_neo.Matchmaking.Handles.{HandleCheck, valid, invalid, validate_handle}
use europa_neo.Matchmaking.Identities.{
  GuestIdentity, IdentityRegistry, with_guest, when_open, sweep_expired, mint_identity, Claim,
  resumed_by, claimed, GuestStatus, reactivated_by, restore_or_mint, restore_identity, disconnected,
  reactivated, release_known, active, grace,
}
use europa_neo.Matchmaking.Identities.Naming.{is_of_another, HandleAnswer, answer, set_handle}
use europa_neo.Matchmaking.Identities.Invariant.{
  IsRegistry, with_guest-IsRegistry, taken-IsRegistry,
}
use europa_neo.Matchmaking.Identities.Changes.{
  released-IsRegistry, mint_identity-IsRegistry, sweep_expired-IsRegistry,
}

module _ {f : Text → Text} (r : IdentityRegistry) (h : IsRegistry f r) where
  pub open_only :
      {A : Type 0} (P : A → Type 0) (next : Option A)
      → Whenever P next
      → Whenever P (when_open r next)
  open_only P next w = Whenever-if P r.closed (λ _ a e. absurd (cc)) (λ _. w)

  -- A guest that is found and keeps its handle.
  changed-IsRegistry :
      (id : PlayerId) (g new : GuestIdentity)
      → get eq_id r.identities id ≡ some g
      → new.id ≡ g.id
      → new.handle ≡ g.handle
      → new.handle_key ≡ g.handle_key
      → IsRegistry f (with_guest r g.id new)
  changed-IsRegistry id g new known same_id same_handle same_key =
      with_guest-IsRegistry r h g new
        (ap (λ i. get eq_id r.identities i) (h.at_id id g known) ∙ known) same_id same_handle
        same_key

  pub disconnected-IsRegistry :
      (id : PlayerId) (now_ms : ℕ) (o : Option GuestIdentity)
      → get eq_id r.identities id ≡ o
      → IsRegistry f (disconnected o r now_ms)
  disconnected-IsRegistry id now_ms none e = h
  disconnected-IsRegistry id now_ms (some g) e = changed-IsRegistry id g _ e refl refl refl

  reactivated_by-IsRegistry :
      (id : PlayerId) (s : GuestStatus) (g : GuestIdentity)
      → get eq_id r.identities id ≡ some g
      → IsRegistry f (reactivated_by s g r).0
  reactivated_by-IsRegistry id active g e = h
  reactivated_by-IsRegistry id grace g e = changed-IsRegistry id g _ e refl refl refl

  resumed_by-IsRegistry :
      (id : PlayerId) (s : GuestStatus) (g : GuestIdentity) (secret : Text)
      → get eq_id r.identities id ≡ some g
      → IsRegistry f (with_guest r g.id (resumed_by s g secret))
  resumed_by-IsRegistry id active g secret e = changed-IsRegistry id g _ e refl refl refl
  resumed_by-IsRegistry id grace g secret e = changed-IsRegistry id g _ e refl refl refl

  pub reactivated-IsRegistry :
      (id : PlayerId) (o : Option GuestIdentity)
      → get eq_id r.identities id ≡ o
      → IsRegistry f (reactivated o r).0
  reactivated-IsRegistry id none e = h
  reactivated-IsRegistry id (some g) e = reactivated_by-IsRegistry id g.status g e

  pub release_known-IsRegistry :
      (id : PlayerId) (o : Option GuestIdentity)
      → get eq_id r.identities id ≡ o
      → IsRegistry f (release_known o r)
  release_known-IsRegistry id none e = h
  release_known-IsRegistry id (some g) e =
      released-IsRegistry r h g (ap (λ i. get eq_id r.identities i) (h.at_id id g e) ∙ e)

  abbrev IsKnown : GuestIdentity → Type 0
  IsKnown g = (id : PlayerId) × (get eq_id r.identities id ≡ some g)

  claimed-IsKnown : (c : Claim) → Whenever IsKnown (claimed r c)
  claimed-IsKnown c = Whenever-bind IsKnown c.guest_player_id (λ id _.
      Whenever-bind IsKnown c.resume_secret (λ presented _.
        Whenever-bind IsKnown (get eq_id r.identities id) (λ g e.
          Whenever-if IsKnown (eq_id presented g.resume_secret)
            (λ _. Whenever-some IsKnown g (id, e)) (λ _ a q. absurd (cc)))))

  restore-IsRegistry :
      (o : Option GuestIdentity) (draws : List PlayerId) (secret : Text) (now_ms : ℕ)
      → Whenever IsKnown o
      → Whenever (λ out. IsRegistry f out.0) (restore_or_mint o r draws secret now_ms)
  restore-IsRegistry (some g) draws secret now_ms w =
      Whenever-some (λ (out : IdentityRegistry × GuestIdentity × Bool). IsRegistry f out.0) _
        (let (id, e) = w g refl in resumed_by-IsRegistry id g.status g secret e)
  restore-IsRegistry none draws secret now_ms w =
      Whenever-bind (λ (out : IdentityRegistry × GuestIdentity × Bool). IsRegistry f out.0)
        (mint_identity r draws secret now_ms)
        (λ m e.
          Whenever-some (λ (out : IdentityRegistry × GuestIdentity × Bool). IsRegistry f out.0) _
            (mint_identity-IsRegistry r h draws secret now_ms m e))

  answer-IsRegistry :
      (check : HandleCheck) (id : PlayerId) (g : GuestIdentity)
      → get eq_id r.identities id ≡ some g
      → IsRegistry f (answer f check r g).0
  answer-IsRegistry (invalid reason) id g e = h
  answer-IsRegistry (valid handle) id g e =
      if-elim (λ (out : IdentityRegistry × HandleAnswer). IsRegistry f out.0)
        (is_of_another (get eq_id r.handle_owners (f handle)) g.id) (λ _. h)
        (λ free.
          taken-IsRegistry r h g _ (ap (λ i. get eq_id r.identities i) (h.at_id id g e) ∙ e) refl
            (f handle) refl refl
            (λ i q.
              eq_id_sound i g.id
                (mine (eq_id i g.id) (sym (ap (λ o. is_of_another o g.id) q) ∙ free))))
    where
      mine : (b : Bool) → not b ≡ false → b ≡ true
      mine true e = refl
      mine false e = absurd (cc)

module _ (to_lower_case : Text → Text) (grace_ms : ℕ) where
  pub restore_identity-IsRegistry :
      (r : IdentityRegistry) (c : Claim) (draws : List PlayerId) (secret : Text) (now_ms : ℕ)
      → IsRegistry to_lower_case r
      → Whenever
          (λ out. IsRegistry to_lower_case out.0)
          (restore_identity grace_ms r c draws secret now_ms)
  unfolding restore_identity
  restore_identity-IsRegistry r c draws secret now_ms h =
      let swept = (sweep_expired grace_ms now_ms r).0 in
      let clean = sweep_expired-IsRegistry grace_ms now_ms r h in
      open_only r h
        (λ (out : IdentityRegistry × GuestIdentity × Bool). IsRegistry to_lower_case out.0) _
        (restore-IsRegistry swept clean (claimed swept c) draws secret now_ms
          (claimed-IsKnown swept clean c))

  pub set_handle-IsRegistry :
      (r : IdentityRegistry) (id : PlayerId) (raw : Text) (now_ms : ℕ)
      → IsRegistry to_lower_case r
      → Whenever
          (λ out. IsRegistry to_lower_case out.0)
          (set_handle to_lower_case grace_ms r id raw now_ms)
  unfolding set_handle
  set_handle-IsRegistry r id raw now_ms h =
      let swept = (sweep_expired grace_ms now_ms r).0 in
      let clean = sweep_expired-IsRegistry grace_ms now_ms r h in
      let Q : IdentityRegistry × HandleAnswer → Type 0 = λ out. IsRegistry to_lower_case out.0 in
      open_only r h Q _ (
        Whenever-bind Q (get eq_id swept.identities id)
          (λ g e. Whenever-some Q _ (answer-IsRegistry swept clean (validate_handle raw) id g e)))
