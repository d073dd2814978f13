-- ===== src/Users/Tables.antt =====
-- The tables of users, of their one-time tokens and of the grants on servers. What bcrypt, SHA-256,
-- base64, the source of randomness and the collation of the database do is an argument.
use core_lab.Prelude.{
  ℕ, Bool, true, false, ◌&&◌, ◌||◌, not, Option, none, some, List, [], ◌∷◌, ◌++◌, ◌==◌, some_of,
  if◌then◌else◌,
}
use core_lab.Data.Row.{Text, Instant}
use core_lab.RateLimit.Window.{Store}
use core_lab.Accounts.Tables.{AccountError}
use core_lab.Accounts.Tables as AccountTables

-- ck_user_role
pub data Role : Type 0 where
  user lab_admin : Role

pub record User : Type 0 where
  pub id : ℕ
  pub lab_id : ℕ
  pub username : Text
  pub email : Text
  pub password_hash : Option Text
  pub display_name : Text
  pub role : Role
  pub is_active : Bool
  pub last_login_at : Option Instant
  pub created_by_user_id : Option ℕ

-- `purpose` of a setup token; ck_setup_token_purpose allows the first two.
pub data Purpose : Type 0 where
  activation password_reset : Purpose
  other : Text → Purpose

pub record SetupToken : Type 0 where
  pub id : ℕ
  pub user_id : ℕ
  pub token_hash : Text
  pub purpose : Purpose
  pub expires_at : Instant
  pub used_at : Option Instant
  pub created_by_user_id : Option ℕ

pub record RegistrationInvite : Type 0 where
  pub id : ℕ
  pub lab_id : ℕ
  pub token_hash : Text
  pub role : Role
  pub expires_at : Instant
  pub used_at : Option Instant
  pub used_by_user_id : Option ℕ
  pub created_by_user_id : Option ℕ

pub record ServerAdminGrant : Type 0 where
  pub id : ℕ
  pub user_id : ℕ
  pub server_id : ℕ
  pub granted_by_user_id : ℕ
  pub is_active : Bool
  pub revoked_by_user_id : Option ℕ
  pub revoked_at : Option Instant

-- Code that is not the program's, and two settings. `gensalt` and `token_urlsafe` take the number of
-- draws made before; `checkpw` gives nothing where it raises ValueError, as `b64decode` does.
pub record Outside : Type 0 where
  pub gensalt : ℕ → Text
  pub hashpw : (password salt : Text) → Text
  pub checkpw : (password password_hash : Text) → Option Bool
  pub token_urlsafe : ℕ → Text
  pub sha256_hex : Text → Text
  pub b64decode : Text → Option (List ℕ)
  pub fingerprint_of : List ℕ → Text
  -- whether the database compares two texts as equal
  pub same_text : Text → Text → Bool
  pub setup_token_ttl_hours : ℕ
  pub jwt_access_ttl_minutes : ℕ

pub data LoginDenial : Type 0 where
  invalid_credentials account_disabled : LoginDenial

pub data AuditEvent : Type 0 where
  login_unknown : (username_attempt : Text) → AuditEvent
  login_denied : (user_id : ℕ) → LoginDenial → AuditEvent
  login logout token_activated user_disabled user_reactivated : (user_id : ℕ) → AuditEvent
  token_issued :
      (actor_user_id : Option ℕ) (user_id : ℕ) (purpose : Purpose) (expires_at : Instant)
      → AuditEvent
  invite_created : (actor_user_id invite_id : ℕ) (role : Role) (expires_at : Instant) → AuditEvent
  invite_revoked : (actor_user_id invite_id : ℕ) → AuditEvent
  invite_consumed : (user_id invite_id : ℕ) → AuditEvent
  registered : (user_id invite_id : ℕ) (role : Role) → AuditEvent
  user_created : (actor_user_id user_id : ℕ) (role : Role) → AuditEvent
  user_updated :
      (actor_user_id user_id : ℕ) (before_name before_email after_name after_email : Text)
      → AuditEvent
  role_changed : (actor_user_id user_id : ℕ) (before after : Role) → AuditEvent
  password_changed : (user_id : ℕ) (ok : Bool) → AuditEvent
  grant_revoked : (actor_user_id grant_id server_id user_id : ℕ) → AuditEvent
  key_added key_deleted : (user_id key_id : ℕ) → AuditEvent

-- The session, and the login lock's store, which is not part of the database. The instants are
-- milliseconds, and the clock is that of `accounts`.
pub record Db : Type 0 where
  pub users : List User
  pub next_user_id : ℕ
  pub setup_tokens : List SetupToken
  pub next_token_id : ℕ
  pub invites : List RegistrationInvite
  pub next_invite_id : ℕ
  pub grants : List ServerAdminGrant
  pub accounts : AccountTables.Db
  pub next_key_id : ℕ
  pub locks : Store
  pub draws : ℕ
  pub audits : List AuditEvent

pub data ServiceError : Type 0 where
  -- `AuthError`
  invalid_credentials account_disabled account_locked : ServiceError
  token_not_found token_already_used token_expired user_no_longer_exists : ServiceError
  token_user_already_activated reset_cannot_update_profile reset_cannot_add_ssh_key : ServiceError
  unsupported_purpose registration_requires_profile : ServiceError
  username_taken email_taken username_or_email_taken : ServiceError
  invite_not_found invite_not_revokable : ServiceError
  -- keys: `InvalidPublicKeyError`, `DuplicateKeyError` and `KeyNotFoundError`
  invalid_public_key duplicate_key key_not_found : ServiceError
  -- `UserError`
  user_not_found duplicate_user forbidden last_admin self_role_change self_disable : ServiceError
  wrong_password user_not_activated user_already_activated : ServiceError
  -- of a link, and what the services do not expect of the database
  account_error : AccountError → ServiceError
  multiple_results_found integrity_error : ServiceError

pub data Outcome (A : Type 0) : Type 0 where
  done : A → Outcome A
  failed : ServiceError → Outcome A

-- One step after the other; what was done before an error stays in the session.
abbrev pub and_then : {A B : Type 0} → Outcome A × Db → (A → Db → Outcome B × Db) → Outcome B × Db
and_then (Outcome.failed e, db) next = (Outcome.failed e, db)
and_then (Outcome.done a, db) next = next a db

-- A check that raises or lets the rest go on.
abbrev pub unless_refused :
    {A : Type 0} → Option ServiceError → Db → Outcome A × Db → Outcome A × Db
unless_refused none db next = next
unless_refused (some e) db next = (Outcome.failed e, db)

-- `scalar_one_or_none`
abbrev pub one_or_none : {A : Type 0} → List A → Outcome (Option A)
one_or_none [] = Outcome.done none
one_or_none (x ∷ []) = Outcome.done (some x)
one_or_none (x ∷ y ∷ xs) = Outcome.failed ServiceError.multiple_results_found

-- `session.get(User, n)`
unfoldable pub find_user : ℕ → List User → Option User
find_user n [] = none
find_user n (u ∷ users) = if u.id == n then some u else find_user n users

-- Assignment to attributes of the user with primary key `n`.
unfoldable pub update_user_row : ℕ → (User → User) → List User → List User
update_user_row n f [] = []
update_user_row n f (u ∷ users) =
    let rest = update_user_row n f users in if u.id == n then f u ∷ users else u ∷ rest

-- Another row that the unique constraints on names and addresses do not allow beside this one.
abbrev pub clashes : Outside → User → User → Bool
clashes outside u v =
    not (v.id == u.id)
    && (v.lab_id == u.lab_id
        && (outside.same_text v.username u.username || outside.same_text v.email u.email))

-- The flush of a row that was added or changed: uq_user_lab_username and uq_user_lab_email.
abbrev pub flush_user :
    {A : Type 0} → Outside → User → ServiceError → Db → Db → Outcome A × Db → Outcome A × Db
flush_user outside u e before after next =
    if some_of (clashes outside u) after.users then (Outcome.failed e, before) else next

abbrev pub is_admin_role : Role → Bool
is_admin_role Role.lab_admin = true
is_admin_role Role.user = false

abbrev pub audit : AuditEvent → Db → Db
audit event db = record db { audits = db.audits ++ event ∷ [] }

abbrev pub now : Db → Instant
now db = db.accounts.clock
