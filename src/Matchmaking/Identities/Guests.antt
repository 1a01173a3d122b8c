-- ===== src/Matchmaking/Identities/Guests.antt =====
-- The registries that the operations on guests lead to.
use europa_neo.Prelude.{ℕ, ◌≡◌, refl, sym, ◌∙◌, ap, Bool, true, false, some, List, Whenever-some}
use europa_neo.Core.PlayerId.{PlayerId, eq_id}
use europa_neo.Matchmaking.OrderedMap.{get}
use europa_neo.Matchmaking.Types.{Text}
use europa_neo.Matchmaking.Identities.{
  GuestIdentity, IdentityRegistry, new_registry, create_identity, Claim, restore_identity,
  disconnect, reactivate, release, release_expired, close_registry,
}
use europa_neo.Matchmaking.Identities.Naming.{HandleAnswer, set_handle}
use europa_neo.Matchmaking.Identities.Lookups.{same_lookup}
use europa_neo.Matchmaking.Identities.Invariant.{lowered, IsRegistry}
use europa_neo.Matchmaking.Identities.Changes.{
  empty-IsRegistry, mint_identity-IsRegistry, sweep_expired-IsRegistry,
}
use europa_neo.Matchmaking.Identities.Operations.{
  open_only, disconnected-IsRegistry, reactivated-IsRegistry, release_known-IsRegistry,
  restore_identity-IsRegistry, set_handle-IsRegistry,
}

-- The registries that a server can come to, from the new one, by the calls that do not throw.
pub data IsReached (to_lower_case : Text → Text) (grace_ms : ℕ) : IdentityRegistry → Type 0 where
  opened : IsReached to_lower_case grace_ms new_registry
  created :
      (r : IdentityRegistry) (draws : List PlayerId) (secret : Text) (now_ms : ℕ)
      (out : IdentityRegistry × GuestIdentity)
      → IsReached to_lower_case grace_ms r
      → create_identity r draws secret now_ms ≡ some out
      → IsReached to_lower_case grace_ms out.0
  restored :
      (r : IdentityRegistry) (c : Claim) (draws : List PlayerId) (secret : Text) (now_ms : ℕ)
      (out : IdentityRegistry × GuestIdentity × Bool)
      → IsReached to_lower_case grace_ms r
      → restore_identity grace_ms r c draws secret now_ms ≡ some out
      → IsReached to_lower_case grace_ms out.0
  named :
      (r : IdentityRegistry) (id : PlayerId) (raw : Text) (now_ms : ℕ)
      (out : IdentityRegistry × HandleAnswer)
      → IsReached to_lower_case grace_ms r
      → set_handle to_lower_case grace_ms r id raw now_ms ≡ some out
      → IsReached to_lower_case grace_ms out.0
  lost :
      (r : IdentityRegistry) (id : PlayerId) (now_ms : ℕ) (out : IdentityRegistry)
      → IsReached to_lower_case grace_ms r
      → disconnect r id now_ms ≡ some out
      → IsReached to_lower_case grace_ms out
  back :
      (r : IdentityRegistry) (id : PlayerId) (out : IdentityRegistry × Bool)
      → IsReached to_lower_case grace_ms r
      → reactivate r id ≡ some out
      → IsReached to_lower_case grace_ms out.0
  gone :
      (r : IdentityRegistry) (id : PlayerId) (out : IdentityRegistry)
      → IsReached to_lower_case grace_ms r
      → release r id ≡ some out
      → IsReached to_lower_case grace_ms out
  expired :
      (r : IdentityRegistry) (now_ms : ℕ) (out : IdentityRegistry × ℕ)
      → IsReached to_lower_case grace_ms r
      → release_expired grace_ms now_ms r ≡ some out
      → IsReached to_lower_case grace_ms out.0
  shut :
      (r : IdentityRegistry)
      → IsReached to_lower_case grace_ms r
      → IsReached to_lower_case grace_ms (close_registry r)

module _ (to_lower_case : Text → Text) (grace_ms : ℕ) where
  IsReached-IsRegistry :
      {r : IdentityRegistry} → IsReached to_lower_case grace_ms r → IsRegistry to_lower_case r
  unfolding create_identity disconnect reactivate release release_expired
  IsReached-IsRegistry opened = empty-IsRegistry false
  IsReached-IsRegistry (created r draws secret now_ms out v e) =
      let h = IsReached-IsRegistry v in
      open_only r h (λ (o : IdentityRegistry × GuestIdentity). IsRegistry to_lower_case o.0) _
        (mint_identity-IsRegistry r h draws secret now_ms) out e
  IsReached-IsRegistry (restored r c draws secret now_ms out v e) =
      restore_identity-IsRegistry to_lower_case grace_ms r c draws secret now_ms
        (IsReached-IsRegistry v) out e
  IsReached-IsRegistry (named r id raw now_ms out v e) =
      set_handle-IsRegistry to_lower_case grace_ms r id raw now_ms (IsReached-IsRegistry v) out e
  IsReached-IsRegistry (lost r id now_ms out v e) =
      let h = IsReached-IsRegistry v in
      open_only r h (IsRegistry to_lower_case) _
        (Whenever-some (IsRegistry to_lower_case) _ (disconnected-IsRegistry r h id now_ms _ refl))
        out e
  IsReached-IsRegistry (back r id out v e) =
      let h = IsReached-IsRegistry v in
      let Q : IdentityRegistry × Bool → Type 0 = λ o. IsRegistry to_lower_case o.0 in
      open_only r h Q _ (Whenever-some Q _ (reactivated-IsRegistry r h id _ refl)) out e
  IsReached-IsRegistry (gone r id out v e) =
      let h = IsReached-IsRegistry v in
      open_only r h (IsRegistry to_lower_case) _
        (Whenever-some (IsRegistry to_lower_case) _ (release_known-IsRegistry r h id _ refl)) out e
  IsReached-IsRegistry (expired r now_ms out v e) =
      let h = IsReached-IsRegistry v in
      let Q : IdentityRegistry × ℕ → Type 0 = λ o. IsRegistry to_lower_case o.0 in
      open_only r h Q _ (Whenever-some Q _ (sweep_expired-IsRegistry grace_ms now_ms r h)) out e
  IsReached-IsRegistry (shut r v) = empty-IsRegistry true

-- In every registry that a server can come to, whatever the calls that did not throw: a handle belongs to
-- one guest, up to its case. Two guests whose handles are the same in lower case are the same guest, the
-- table of owners names it at that key, and the registry is in order, the key of each guest being its
-- handle in lower case.
pub one_holder :
    (to_lower_case : Text → Text) (grace_ms : ℕ) (r : IdentityRegistry) (i j : PlayerId)
    (g x : GuestIdentity) (a b : Text)
    → IsReached to_lower_case grace_ms r
    → get eq_id r.identities i ≡ some g
    → get eq_id r.identities j ≡ some x
    → g.handle ≡ some a
    → x.handle ≡ some b
    → to_lower_case a ≡ to_lower_case b
    → (i ≡ j) × (get eq_id r.handle_owners (to_lower_case a) ≡ some i) × IsRegistry to_lower_case r
one_holder to_lower_case grace_ms r i j g x a b v eg ex ha hb same =
    let h = IsReached-IsRegistry to_lower_case grace_ms v in
    let first = h.held i g (to_lower_case a) eg (h.keyed i g eg ∙ ap (lowered to_lower_case) ha) in
    let second =
      h.held j x (to_lower_case a) ex
        (h.keyed j x ex ∙ ap (lowered to_lower_case) hb ∙ ap some (sym same)) in
    (same_lookup first second, first, h)
