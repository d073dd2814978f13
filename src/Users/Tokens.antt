-- ===== src/Users/Tokens.antt =====
-- Setup tokens and registration invites: issuing them, revoking an invite, and looking them up.
pub mod Supersede
use core_lab.Prelude.{
  ℕ, ◌+◌, ◌*◌, Bool, true, false, ◌&&◌, ◌||◌, Option, none, some, List, [], ◌∷◌, ◌++◌, ◌==◌, select,
  leb, is_none, if◌then◌else◌,
}
use core_lab.Data.Row.{Text, Instant}
use core_lab.Data.Strings.{text_eq}
use core_lab.Users.Tables.{
  User, Role, Purpose, SetupToken, RegistrationInvite, Outside, AuditEvent, Db, ServiceError,
  Outcome, one_or_none, find_user, audit, now,
}

-- The plaintext of a token, and when it expires.
abbrev pub Issued : Type 0
Issued = Text × Instant

abbrev pub expiry : Outside → Instant → Instant
expiry outside at = at + outside.setup_token_ttl_hours * 3600000

abbrev pub use_at : Instant → SetupToken → SetupToken
use_at at t = record t { used_at = some at }

abbrev pub is_unused : (user_id : ℕ) → SetupToken → Bool
is_unused user_id t = t.user_id == user_id && is_none t.used_at

-- The tokens that were issued before are used up.
unfoldable pub use_unused : (user_id : ℕ) → Instant → List SetupToken → List SetupToken
use_unused user_id at [] = []
use_unused user_id at (t ∷ tokens) =
    (if is_unused user_id t then use_at at t else t) ∷ use_unused user_id at tokens

abbrev pub new_token :
    Outside → (user_id : ℕ) → Purpose → (actor_user_id : Option ℕ) → Db → SetupToken
new_token outside user_id purpose actor_user_id db = record {
  id = db.next_token_id;
  user_id = user_id;
  token_hash = outside.sha256_hex (outside.token_urlsafe db.draws);
  purpose = purpose;
  expires_at = expiry outside (now db);
  used_at = none;
  created_by_user_id = actor_user_id;
}

-- `issue_setup_token`
unfoldable pub issue_setup_token :
    Outside → (user_id : ℕ) → Purpose → (actor_user_id : Option ℕ) → Db → Issued × Db
issue_setup_token outside user_id purpose actor_user_id db = (
  (outside.token_urlsafe db.draws, expiry outside (now db)),
  audit (AuditEvent.token_issued actor_user_id user_id purpose (expiry outside (now db)))
      (record db {
        setup_tokens =
            use_unused user_id (now db) db.setup_tokens
            ++ new_token outside user_id purpose actor_user_id db ∷ [];
        next_token_id = db.next_token_id + 1;
        draws = db.draws + 1;
      }),
)

abbrev new_invite : Outside → (lab_id : ℕ) → Role → (actor_user_id : ℕ) → Db → RegistrationInvite
new_invite outside lab_id role actor_user_id db = record {
  id = db.next_invite_id;
  lab_id = lab_id;
  token_hash = outside.sha256_hex (outside.token_urlsafe db.draws);
  role = role;
  expires_at = expiry outside (now db);
  used_at = none;
  used_by_user_id = none;
  created_by_user_id = some actor_user_id;
}

-- `issue_registration_invite`
unfoldable pub issue_registration_invite :
    Outside → (lab_id : ℕ) → Role → (actor_user_id : ℕ) → Db → Issued × Db
issue_registration_invite outside lab_id role actor_user_id db = (
  (outside.token_urlsafe db.draws, expiry outside (now db)),
  audit (AuditEvent.invite_created actor_user_id db.next_invite_id role (expiry outside (now db)))
      (record db {
        invites = db.invites ++ new_invite outside lab_id role actor_user_id db ∷ [];
        next_invite_id = db.next_invite_id + 1;
        draws = db.draws + 1;
      }),
)

pub data InviteStatus : Type 0 where
  active used expired revoked : InviteStatus

abbrev used_up : Option ℕ → InviteStatus
used_up (some user_id) = InviteStatus.used
used_up none = InviteStatus.revoked

abbrev status_of : RegistrationInvite → Instant → Option Instant → InviteStatus
status_of invite at (some used_at) = used_up invite.used_by_user_id
status_of invite at none =
    if leb invite.expires_at at then InviteStatus.expired else InviteStatus.active

-- `_invite_status`
unfoldable pub invite_status : RegistrationInvite → Instant → InviteStatus
invite_status invite at = status_of invite at invite.used_at

abbrev is_active_status : InviteStatus → Bool
is_active_status InviteStatus.active = true
is_active_status _ = false

unfoldable pub find_invite :
    (invite_id lab_id : ℕ) → List RegistrationInvite → Option RegistrationInvite
find_invite invite_id lab_id [] = none
find_invite invite_id lab_id (i ∷ invites) =
    if i.id == invite_id && i.lab_id == lab_id then some i else find_invite invite_id lab_id invites

unfoldable pub update_invite :
    ℕ
    → (RegistrationInvite → RegistrationInvite)
    → List RegistrationInvite
    → List RegistrationInvite
update_invite n f [] = []
update_invite n f (i ∷ invites) = (if i.id == n then f i else i) ∷ update_invite n f invites

abbrev revoked_at : Instant → RegistrationInvite → RegistrationInvite
revoked_at at i = record i { used_at = some at; used_by_user_id = none }

abbrev revoke_found :
    (actor_user_id : ℕ) → Db → Option RegistrationInvite → Outcome RegistrationInvite × Db
revoke_found actor_user_id db none = (Outcome.failed ServiceError.invite_not_found, db)
revoke_found actor_user_id db (some i) =
    if is_active_status (invite_status i (now db))
    then (
      Outcome.done (revoked_at (now db) i),
      audit (AuditEvent.invite_revoked actor_user_id i.id)
          (record db { invites = update_invite i.id (revoked_at (now db)) db.invites }),
    )
    else (Outcome.failed ServiceError.invite_not_revokable, db)

-- `revoke_registration_invite`
unfoldable pub revoke_registration_invite :
    (invite_id lab_id actor_user_id : ℕ) → Db → Outcome RegistrationInvite × Db
revoke_registration_invite invite_id lab_id actor_user_id db =
    revoke_found actor_user_id db (find_invite invite_id lab_id db.invites)

-- What is the same for both kinds of token: the use, then the expiry.
abbrev pub unexpired : {A : Type 0} → A → (expires_at at : Instant) → Option Instant → Outcome A
unexpired row expires_at at (some used_at) = Outcome.failed ServiceError.token_already_used
unexpired row expires_at at none =
    if leb expires_at at then Outcome.failed ServiceError.token_expired else Outcome.done row

abbrev pub live_token : Instant → Outcome (Option SetupToken) → Outcome SetupToken
live_token at (Outcome.failed e) = Outcome.failed e
live_token at (Outcome.done none) = Outcome.failed ServiceError.token_not_found
live_token at (Outcome.done (some t)) = unexpired t t.expires_at at t.used_at

abbrev pub live_invite : Instant → Outcome (Option RegistrationInvite) → Outcome RegistrationInvite
live_invite at (Outcome.failed e) = Outcome.failed e
live_invite at (Outcome.done none) = Outcome.failed ServiceError.token_not_found
live_invite at (Outcome.done (some i)) = unexpired i i.expires_at at i.used_at

abbrev pub has_hash : Text → SetupToken → Bool
has_hash hash t = text_eq t.token_hash hash

abbrev pub invite_has_hash : Text → RegistrationInvite → Bool
invite_has_hash hash i = text_eq i.token_hash hash

-- `lookup_active_token`
unfoldable pub lookup_active_token : Outside → (token_plaintext : Text) → Db → Outcome SetupToken
lookup_active_token outside token db =
    live_token (now db) (one_or_none (select (has_hash (outside.sha256_hex token)) db.setup_tokens))

-- `lookup_active_registration_invite`
unfoldable pub lookup_active_registration_invite :
    Outside → (token_plaintext : Text) → Db → Outcome RegistrationInvite
lookup_active_registration_invite outside token db =
    live_invite (now db)
      (one_or_none (select (invite_has_hash (outside.sha256_hex token)) db.invites))

pub data ActivateValidate : Type 0 where
  registration : Role → ActivateValidate
  setup : User → Purpose → ActivateValidate

abbrev pub for_invite : Outcome RegistrationInvite → Outcome ActivateValidate
for_invite (Outcome.failed e) = Outcome.failed e
for_invite (Outcome.done i) = Outcome.done (ActivateValidate.registration i.role)

abbrev for_user : SetupToken → Option User → Outcome ActivateValidate
for_user t none = Outcome.failed ServiceError.user_no_longer_exists
for_user t (some u) = Outcome.done (ActivateValidate.setup u t.purpose)

-- Only a token that is not a setup token's is looked for among the invites.
abbrev pub for_token :
    Outcome RegistrationInvite → Db → Outcome SetupToken → Outcome ActivateValidate
for_token invite db (Outcome.done t) = for_user t (find_user t.user_id db.users)
for_token invite db (Outcome.failed ServiceError.token_not_found) = for_invite invite
for_token invite db (Outcome.failed e) = Outcome.failed e

-- `validate_activation_token`
unfoldable pub validate_activation_token : Outside → Text → Db → Outcome ActivateValidate
validate_activation_token outside token db =
    for_token (lookup_active_registration_invite outside token db) db
      (lookup_active_token outside token db)
