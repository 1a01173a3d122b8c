-- ===== src/Matchmaking/Identities/Naming.antt =====
-- setHandle of packages/matchmaking/src/internal/identityRegistry.ts. String.prototype.toLowerCase, whose
-- tables are part of the language, is a parameter.
use europa_neo.Prelude.{ℕ, if◌then◌else◌, Bool, false, not, Option, none, some, ◌>>=◌}
use europa_neo.Core.PlayerId.{PlayerId, eq_id}
use europa_neo.Matchmaking.OrderedMap.{get, put}
use europa_neo.Matchmaking.Types.{Text}
use europa_neo.Matchmaking.Lifecycle.{eq_optional}
use europa_neo.Matchmaking.Handles.{TextDefectReason, HandleCheck, valid, invalid, validate_handle}
use europa_neo.Matchmaking.Identities.{
  GuestIdentity, IdentityRegistry, when_open, drop_owned, sweep_expired,
}

pub data HandleAnswer : Type 0 where
  handle_set : Text → HandleAnswer
  handle_invalid : TextDefectReason → HandleAnswer
  handle_taken : HandleAnswer

abbrev pub is_of_another : Option PlayerId → PlayerId → Bool
is_of_another none id = false
is_of_another (some owner) id = not (eq_id owner id)

-- The guest holds the key, and no other one.
abbrev pub hold : IdentityRegistry → GuestIdentity → (handle key : Text) → IdentityRegistry
hold r g handle key =
    let kept =
      if eq_optional g.handle_key (some key)
      then r.handle_owners
      else drop_owned g.handle_key g.id r.handle_owners in
    record r {
      identities =
          put eq_id r.identities g.id (record g { handle = some handle; handle_key = some key });
      handle_owners = put eq_id kept key g.id;
    }

module _ (to_lower_case : Text → Text) where
  abbrev pub answer :
      HandleCheck → IdentityRegistry → GuestIdentity → IdentityRegistry × HandleAnswer
  answer (invalid reason) r g = (r, handle_invalid reason)
  answer (valid handle) r g =
      if is_of_another (get eq_id r.handle_owners (to_lower_case handle)) g.id
      then (r, handle_taken)
      else (hold r g handle (to_lower_case handle), handle_set handle)

  -- An unknown guest throws.
  unfoldable pub set_handle :
      (grace_ms : ℕ)
      → IdentityRegistry
      → PlayerId
      → (raw : Text) → ℕ
      → Option (IdentityRegistry × HandleAnswer)
  unfolding sweep_expired validate_handle
  set_handle grace_ms r id raw now_ms =
      let swept = (sweep_expired grace_ms now_ms r).0 in
      when_open r
        (get eq_id swept.identities id >>= λ g. some (answer (validate_handle raw) swept g))
