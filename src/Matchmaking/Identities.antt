-- ===== src/Matchmaking/Identities.antt =====
-- packages/matchmaking/src/internal/identityRegistry.ts and guestPlayerIdentity.ts: the guests of a server
-- and the handles they hold. Drawn ids and secrets are arguments, as is the reading of the clock; a throw
-- is `none`.
pub mod Naming
pub mod Lookups
pub mod Invariant
pub mod Changes
pub mod Operations
pub mod Guests
use europa_neo.Prelude.{
  ℕ, suc, ◌+◌, ltb, if◌then◌else◌, Bool, true, false, not, ◌&&◌, Option, none, some, ◌>>=◌, List,
  [], ◌∷◌,
}
use europa_neo.Core.PlayerId.{PlayerId, eq_id, is_player_id}
use europa_neo.Matchmaking.OrderedMap.{OrderedMap, get, put, delete, values, size}
use europa_neo.Matchmaking.Types.{Text}
use europa_neo.Matchmaking.Lifecycle.{eq_optional}
use europa_neo.Matchmaking.Handles.{TextDefectReason, HandleCheck, valid, invalid, validate_handle}

pub data GuestStatus : Type 0 where
  active grace : GuestStatus

pub record GuestIdentity : Type 0 where
  pub id : PlayerId
  pub handle : Option Text
  pub handle_key : Option Text
  pub status : GuestStatus
  pub disconnected_at_ms : Option ℕ
  pub created_at_ms : ℕ
  pub resume_secret : Text

abbrev pub create_guest_identity : PlayerId → ℕ → Text → GuestIdentity
create_guest_identity id now_ms resume_secret = record {
  id = id;
  handle = none;
  handle_key = none;
  status = active;
  disconnected_at_ms = none;
  created_at_ms = now_ms;
  resume_secret = resume_secret;
}

pub record IdentityRegistry : Type 0 where
  pub identities : OrderedMap PlayerId GuestIdentity
  pub handle_owners : OrderedMap Text PlayerId
  pub closed : Bool

abbrev pub new_registry : IdentityRegistry
new_registry = record { identities = []; handle_owners = []; closed = false }

-- `assertOpen`, and what follows it.
abbrev pub when_open {ℓ} : {A : Type ℓ} → IdentityRegistry → Option A → Option A
when_open r next = if r.closed then none else next

abbrev pub is_in_grace_period : GuestStatus → Bool
is_in_grace_period active = false
is_in_grace_period grace = true

abbrev pub has_lapsed : Option ℕ → (grace_ms now_ms : ℕ) → Bool
has_lapsed none grace_ms now_ms = false
has_lapsed (some since) grace_ms now_ms = not (ltb now_ms (since + grace_ms))

abbrev pub is_grace_expired : (grace_ms now_ms : ℕ) → GuestIdentity → Bool
is_grace_expired grace_ms now_ms g =
    is_in_grace_period g.status && has_lapsed g.disconnected_at_ms grace_ms now_ms

-- The key of a handle is deleted if it is the guest's.
abbrev pub drop_owned : Option Text → PlayerId → OrderedMap Text PlayerId → OrderedMap Text PlayerId
drop_owned none id owners = owners
drop_owned (some key) id owners =
    if eq_optional (get eq_id owners key) (some id) then delete eq_id owners key else owners

abbrev pub release_record : IdentityRegistry → GuestIdentity → IdentityRegistry
release_record r g = record r {
  handle_owners = drop_owned g.handle_key g.id r.handle_owners;
  identities = delete eq_id r.identities g.id;
}

-- The loop of the sweep: a guest that is visited is the only one that the visit may delete.
unfoldable pub sweep_guests :
    (grace_ms now_ms : ℕ) → List GuestIdentity → IdentityRegistry → IdentityRegistry × ℕ
sweep_guests grace_ms now_ms [] r = (r, 0)
sweep_guests grace_ms now_ms (g ∷ gs) r =
    let next = if is_grace_expired grace_ms now_ms g then release_record r g else r in
    let rest = sweep_guests grace_ms now_ms gs next in
    (rest.0, if is_grace_expired grace_ms now_ms g then suc rest.1 else rest.1)

unfoldable pub sweep_expired : (grace_ms now_ms : ℕ) → IdentityRegistry → IdentityRegistry × ℕ
unfolding sweep_guests
sweep_expired grace_ms now_ms r = sweep_guests grace_ms now_ms (values r.identities) r

abbrev pub is_known : Option GuestIdentity → Bool
is_known none = false
is_known (some _) = true

-- The ids that are drawn, one for each attempt; a malformed one throws, as does the end of the attempts.
unfoldable pub allocate_identity_id : IdentityRegistry → (draws : List PlayerId) → Option PlayerId
allocate_identity_id r [] = none
allocate_identity_id r (id ∷ draws) =
    let rest = allocate_identity_id r draws in
    if not (is_player_id id)
    then none
    else if is_known (get eq_id r.identities id)
    then rest
    else some id

abbrev pub with_guest : IdentityRegistry → PlayerId → GuestIdentity → IdentityRegistry
with_guest r id g = record r { identities = put eq_id r.identities id g }

unfoldable pub mint_identity :
    IdentityRegistry
    → (draws : List PlayerId) → (secret : Text) → ℕ
    → Option (IdentityRegistry × GuestIdentity)
unfolding allocate_identity_id
mint_identity r draws secret now_ms = allocate_identity_id r draws >>= λ id.
    let g = create_guest_identity id now_ms secret in some (with_guest r id g, g)

unfoldable pub create_identity :
    IdentityRegistry
    → (draws : List PlayerId) → (secret : Text) → ℕ
    → Option (IdentityRegistry × GuestIdentity)
unfolding mint_identity
create_identity r draws secret now_ms = when_open r (mint_identity r draws secret now_ms)

pub record Claim : Type 0 where
  pub guest_player_id : Option PlayerId
  pub resume_secret : Option Text

-- A guest that is back, with a new secret.
abbrev pub resumed_by : GuestStatus → GuestIdentity → Text → GuestIdentity
resumed_by active g secret = record g { resume_secret = secret }
resumed_by grace g secret = record g {
  status = active;
  disconnected_at_ms = none;
  resume_secret = secret;
}

abbrev pub resumed : GuestIdentity → Text → GuestIdentity
resumed g secret = resumed_by g.status g secret

-- The guest that a claim proves to be.
abbrev pub claimed : IdentityRegistry → Claim → Option GuestIdentity
claimed r c = c.guest_player_id >>= λ id. c.resume_secret >>= λ presented.
    get eq_id r.identities id >>= λ g. if eq_id presented g.resume_secret then some g else none

abbrev pub restore_or_mint :
    Option GuestIdentity
    → IdentityRegistry
    → (draws : List PlayerId) → (secret : Text) → ℕ
    → Option (IdentityRegistry × GuestIdentity × Bool)
restore_or_mint (some g) r draws secret now_ms =
    some (with_guest r g.id (resumed g secret), resumed g secret, true)
restore_or_mint none r draws secret now_ms =
    mint_identity r draws secret now_ms >>= λ out. some (out.0, out.1, false)

-- The guest, and whether it was restored.
unfoldable pub restore_identity :
    (grace_ms : ℕ)
    → IdentityRegistry
    → Claim
    → (draws : List PlayerId) → (secret : Text) → ℕ
    → Option (IdentityRegistry × GuestIdentity × Bool)
unfolding sweep_expired mint_identity
restore_identity grace_ms r c draws secret now_ms =
    let swept = (sweep_expired grace_ms now_ms r).0 in
    when_open r (restore_or_mint (claimed swept c) swept draws secret now_ms)

abbrev pub disconnected : Option GuestIdentity → IdentityRegistry → ℕ → IdentityRegistry
disconnected none r now_ms = r
disconnected (some g) r now_ms =
    with_guest r g.id (record g { status = grace; disconnected_at_ms = some now_ms })

unfoldable pub disconnect : IdentityRegistry → PlayerId → ℕ → Option IdentityRegistry
disconnect r id now_ms = when_open r (some (disconnected (get eq_id r.identities id) r now_ms))

abbrev pub reactivated_by : GuestStatus → GuestIdentity → IdentityRegistry → IdentityRegistry × Bool
reactivated_by active g r = (r, false)
reactivated_by grace g r =
    (with_guest r g.id (record g { status = active; disconnected_at_ms = none }), true)

abbrev pub reactivated : Option GuestIdentity → IdentityRegistry → IdentityRegistry × Bool
reactivated none r = (r, false)
reactivated (some g) r = reactivated_by g.status g r

unfoldable pub reactivate : IdentityRegistry → PlayerId → Option (IdentityRegistry × Bool)
reactivate r id = when_open r (some (reactivated (get eq_id r.identities id) r))

abbrev pub release_known : Option GuestIdentity → IdentityRegistry → IdentityRegistry
release_known none r = r
release_known (some g) r = release_record r g

unfoldable pub release : IdentityRegistry → PlayerId → Option IdentityRegistry
release r id = when_open r (some (release_known (get eq_id r.identities id) r))

unfoldable pub release_expired :
    (grace_ms now_ms : ℕ) → IdentityRegistry → Option (IdentityRegistry × ℕ)
unfolding sweep_expired
release_expired grace_ms now_ms r = when_open r (some (sweep_expired grace_ms now_ms r))

abbrev pub close_registry : IdentityRegistry → IdentityRegistry
close_registry r = record { identities = []; handle_owners = []; closed = true }
