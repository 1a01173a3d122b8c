-- ===== src/Matchmaking/Examples/Guests.antt =====
-- Ann comes as a guest and takes a handle.
use europa_neo.Prelude.{◌≡◌, refl, ◌==◌, if◌then◌else◌, false, some, [], ◌∷◌}
use europa_neo.Core.PlayerId.{eq_id, is_player_id, all_id_chars, is_id_char}
use europa_neo.Engine.Examples.{ann}
use europa_neo.Matchmaking.OrderedMap.{get, put}
use europa_neo.Matchmaking.Types.{Text}
use europa_neo.Matchmaking.Handles.{classify_text_defect, validate_handle}
use europa_neo.Matchmaking.Identities.{
  GuestIdentity, create_guest_identity, IdentityRegistry, new_registry, sweep_guests, sweep_expired,
  allocate_identity_id, mint_identity, create_identity,
}
use europa_neo.Matchmaking.Identities.Naming.{set_handle, handle_set}
use europa_neo.Matchmaking.Identities.Invariant.{IsRegistry}
use europa_neo.Matchmaking.Identities.Guests.{IsReached, opened, created, named, one_holder}

-- A capital A becomes a small one.
abbrev lower_case : Text → Text
lower_case [] = []
lower_case (c ∷ t) = (if c == b'A' then b'a' else c) ∷ lower_case t

abbrev first_guest : GuestIdentity
first_guest = create_guest_identity ann 5 (b's' ∷ [])

abbrev one_guest : IdentityRegistry
one_guest = record { identities = (ann, first_guest) ∷ []; handle_owners = []; closed = false }

abbrev named_guest : GuestIdentity
named_guest = record first_guest { handle = some (b'A' ∷ []); handle_key = some (b'a' ∷ []) }

abbrev named_registry : IdentityRegistry
named_registry = record {
  identities = (ann, named_guest) ∷ [];
  handle_owners = (b'a' ∷ [], ann) ∷ [];
  closed = false;
}

one_guest-IsReached : IsReached lower_case 60 one_guest
unfolding create_identity mint_identity allocate_identity_id is_player_id all_id_chars is_id_char
    get put
one_guest-IsReached =
    created new_registry (ann ∷ []) (b's' ∷ []) 5 (one_guest, first_guest) opened refl

named_registry-IsReached : IsReached lower_case 60 named_registry
unfolding set_handle sweep_expired sweep_guests validate_handle classify_text_defect get put
named_registry-IsReached =
    named one_guest ann (b' ' ∷ b'A' ∷ []) 6 (named_registry, handle_set (b'A' ∷ []))
      one_guest-IsReached refl

one_holder_example :
    (ann ≡ ann)
    × (get eq_id named_registry.handle_owners (b'a' ∷ []) ≡ some ann)
    × IsRegistry lower_case named_registry
unfolding get
one_holder_example =
    one_holder lower_case 60 named_registry ann ann named_guest named_guest (b'A' ∷ []) (b'A' ∷ [])
      named_registry-IsReached refl refl refl refl refl
