-- ===== src/Users/Activate.antt =====
-- Activation: a setup token or an invite is redeemed for a password, a profile and a key.
mod Marked
pub mod Once
pub mod Password
pub mod Stored
use core_lab.Prelude.{
  ℕ, ◌+◌, Bool, true, false, ◌&&◌, ◌||◌, not, Option, none, some, List, [], ◌∷◌, ◌++◌, ◌==◌, select,
  or_else, is_some, if◌then◌else◌, first_some,
}
use core_lab.Data.Row.{Text, Instant}
use core_lab.Data.Strings.{text_eq}
use core_lab.Accounts.Tables.{SshPublicKey}
use core_lab.Users.Tables.{
  User, Purpose, SetupToken, RegistrationInvite, Outside, AuditEvent, Db, ServiceError, Outcome,
  and_then, unless_refused, one_or_none, find_user, update_user_row, flush_user, audit, now,
}
use core_lab.Users.Keys.{PublicKey, parse_public_key, fingerprint_sha256, same_key, add_key}
use core_lab.Users.Login.{hash_password}
use core_lab.Users.Tokens.{
  use_at, update_invite, lookup_active_token, lookup_active_registration_invite,
}
use core_lab.Users.Manage.{new_user, add_user_row}

pub record Activation : Type 0 where
  pub new_password : Text
  pub username : Option Text
  pub email : Option Text
  pub display_name : Option Text
  pub ssh_key_label : Option Text
  pub ssh_key_public_key : Option Text

-- A query for another row: an error where it finds one, or more than it may.
abbrev refused_if : {A : Type 0} → ServiceError → Outcome (Option A) → Option ServiceError
refused_if e (Outcome.done none) = none
refused_if e (Outcome.done (some x)) = some e
refused_if e (Outcome.failed f) = some f

abbrev has_username : Outside → (lab_id : ℕ) → Text → User → Bool
has_username outside lab_id username u = u.lab_id == lab_id && outside.same_text u.username username

abbrev has_email : Outside → (lab_id : ℕ) → Text → User → Bool
has_email outside lab_id email u = u.lab_id == lab_id && outside.same_text u.email email

abbrev changed_username : Outside → User → List User → Option Text → Option ServiceError
changed_username outside u users none = none
changed_username outside u users (some username) =
    if text_eq username u.username
    then none
    else refused_if ServiceError.username_taken (
        one_or_none
          (select (λ v. has_username outside u.lab_id username v && not (v.id == u.id)) users))

abbrev changed_email : Outside → User → List User → Option Text → Option ServiceError
changed_email outside u users none = none
changed_email outside u users (some email) =
    if text_eq email u.email
    then none
    else refused_if ServiceError.email_taken
        (one_or_none (select (λ v. has_email outside u.lab_id email v && not (v.id == u.id)) users))

-- `_validate_registration_profile`
unfoldable pub validate_registration_profile :
    Outside → User → (username email : Option Text) → Db → Option ServiceError
validate_registration_profile outside u username email db =
    first_some (changed_username outside u db.users username)
      (changed_email outside u db.users email)

-- `_validate_new_registration_profile`
unfoldable pub validate_new_registration_profile :
    Outside → (lab_id : ℕ) (username email : Text) → Db → Option ServiceError
validate_new_registration_profile outside lab_id username email db =
    first_some
      (refused_if ServiceError.username_taken
        (one_or_none (select (has_username outside lab_id username) db.users)))
      (refused_if ServiceError.email_taken
        (one_or_none (select (has_email outside lab_id email) db.users)))

abbrev owned_key : Outside → (user_id : Option ℕ) → Db → Outcome PublicKey → Option ServiceError
owned_key outside user_id db (Outcome.failed e) = some e
owned_key outside none db (Outcome.done parsed) = none
owned_key outside (some user_id) db (Outcome.done parsed) = refused_if ServiceError.duplicate_key (
    one_or_none
      (select (same_key user_id (fingerprint_sha256 outside parsed.blob)) db.accounts.keys))

-- `_validate_registration_ssh_key`, where a key is given
unfoldable pub validate_registration_ssh_key :
    Outside → (user_id : Option ℕ) → (public_key : Option Text) → Db → Option ServiceError
validate_registration_ssh_key outside user_id none db = none
validate_registration_ssh_key outside user_id (some public_key) db =
    owned_key outside user_id db (parse_public_key outside public_key)

-- The checks before a token is used, for its purpose.
unfoldable pub check_purpose : Outside → Purpose → User → Activation → Db → Option ServiceError
check_purpose outside Purpose.activation u a db =
    if is_some u.password_hash
    then some ServiceError.token_user_already_activated
    else first_some (validate_registration_profile outside u a.username a.email db)
        (validate_registration_ssh_key outside (some u.id) a.ssh_key_public_key db)
check_purpose outside Purpose.password_reset u a db =
    if is_some a.username || (is_some a.email || is_some a.display_name)
    then some ServiceError.reset_cannot_update_profile
    else if is_some a.ssh_key_public_key || is_some a.ssh_key_label
    then some ServiceError.reset_cannot_add_ssh_key
    else none
check_purpose outside (Purpose.other purpose) u a db = some ServiceError.unsupported_purpose

abbrev pub activated : Purpose → Activation → (password_hash : Text) → User → User
activated Purpose.activation a hash u = record u {
  username = or_else u.username a.username;
  email = or_else u.email a.email;
  display_name = or_else u.display_name a.display_name;
  password_hash = some hash;
}
activated _ a hash u = record u { password_hash = some hash }

unfoldable pub update_token : ℕ → (SetupToken → SetupToken) → List SetupToken → List SetupToken
update_token n f [] = []
update_token n f (t ∷ tokens) = (if t.id == n then f t else t) ∷ update_token n f tokens

-- `session.flush()`: a failure of its unique constraints is not caught here.
abbrev pub used_token : Outside → SetupToken → Activation → Db → Db
used_token outside t a db =
    let hash = hash_password outside db.draws a.new_password in
    record db {
      users = update_user_row t.user_id (activated t.purpose a hash) db.users;
      setup_tokens = update_token t.id (use_at (now db)) db.setup_tokens;
      draws = db.draws + 1;
    }

abbrev pub add_given_key :
    Outside → (public_key : Option Text) → Activation → (user_id : ℕ) → Db → Outcome Bool × Db
add_given_key outside none a user_id db = (Outcome.done false, db)
add_given_key outside (some public_key) a user_id db =
    and_then (add_key outside public_key a.ssh_key_label user_id db)
      (λ key db. (Outcome.done true, db))

-- The key that goes with a token: a reset has none.
abbrev pub key_for : Purpose → Activation → Option Text
key_for Purpose.activation a = a.ssh_key_public_key
key_for _ a = none

abbrev pub redeem : Outside → SetupToken → Activation → User → Db → Outcome User × Db
redeem outside t a u db =
    let u' = activated t.purpose a (hash_password outside db.draws a.new_password) u in
    unless_refused (check_purpose outside t.purpose u a db) db (
      flush_user outside u' ServiceError.integrity_error db (used_token outside t a db) (
        and_then (add_given_key outside (key_for t.purpose a) a u.id (used_token outside t a db))
          (λ added db. (Outcome.done u', audit (AuditEvent.token_activated u.id) db))))

abbrev pub redeem_for : Outside → SetupToken → Activation → Option User → Db → Outcome User × Db
redeem_for outside t a none db = (Outcome.failed ServiceError.user_no_longer_exists, db)
redeem_for outside t a (some u) db = redeem outside t a u db

abbrev pub consumed_at : Instant → (user_id : ℕ) → RegistrationInvite → RegistrationInvite
consumed_at at user_id i = record i { used_at = some at; used_by_user_id = some user_id }

-- The session once the user and the use of the invite are in it.
abbrev pub used_invite : RegistrationInvite → User → Db → Db
used_invite i u db =
    let db' = add_user_row u db in
    record db' {
      invites = update_invite i.id (consumed_at (now db) u.id) db.invites;
      draws = db.draws + 1;
    }

abbrev pub register : Outside → RegistrationInvite → Activation → User → Db → Outcome User × Db
register outside i a u db =
    unless_refused
      (first_some (validate_new_registration_profile outside i.lab_id u.username u.email db)
        (validate_registration_ssh_key outside none a.ssh_key_public_key db))
      db
      (flush_user outside u ServiceError.username_or_email_taken db (add_user_row u db) (
        and_then (add_given_key outside a.ssh_key_public_key a u.id (used_invite i u db))
          (λ added db. (
            Outcome.done u,
            audit (AuditEvent.invite_consumed u.id i.id)
                (audit (AuditEvent.registered u.id i.id u.role) db),
          ))))

abbrev pub profile : Option Text → Option Text → Option Text → Option (Text × Text × Text)
profile (some username) (some email) (some display_name) = some (username, email, display_name)
profile _ _ _ = none

abbrev pub with_profile :
    Outside → RegistrationInvite → Activation → Db → Option (Text × Text × Text) → Outcome User × Db
with_profile outside i a db none = (Outcome.failed ServiceError.registration_requires_profile, db)
with_profile outside i a db (some (username, email, display_name)) =
    register outside i a
      (new_user db.next_user_id i.lab_id
        (record { username = username; email = email; display_name = display_name; role = i.role })
        (some (hash_password outside db.draws a.new_password)) i.created_by_user_id)
      db

-- `_complete_registration_invite`
unfoldable pub complete_registration_invite :
    Outside → RegistrationInvite → Activation → Db → Outcome User × Db
complete_registration_invite outside i a db =
    with_profile outside i a db (profile a.username a.email a.display_name)

abbrev pub complete_for : Outside → Activation → Db → Outcome RegistrationInvite → Outcome User × Db
complete_for outside a db (Outcome.failed e) = (Outcome.failed e, db)
complete_for outside a db (Outcome.done i) = complete_registration_invite outside i a db

-- Only a token that is not a setup token's is looked for among the invites.
abbrev pub activate_with :
    Outside → Activation → Outcome RegistrationInvite → Db → Outcome SetupToken → Outcome User × Db
activate_with outside a invite db (Outcome.done t) =
    redeem_for outside t a (find_user t.user_id db.users) db
activate_with outside a invite db (Outcome.failed ServiceError.token_not_found) =
    complete_for outside a db invite
activate_with outside a invite db (Outcome.failed e) = (Outcome.failed e, db)

-- `activate`
unfoldable pub activate : Outside → (token : Text) → Activation → Db → Outcome User × Db
activate outside token a db =
    activate_with outside a (lookup_active_registration_invite outside token db) db
      (lookup_active_token outside token db)
