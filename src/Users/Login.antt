-- ===== src/Users/Login.antt =====
-- Passwords, login with its lock, logout, and the user that a request acts for.
pub mod Locked
use core_lab.Prelude.{
  ℕ, ◌+◌, ◌*◌, Bool, true, false, ◌&&◌, ◌||◌, Option, none, some, List, [], ◌∷◌, ◌++◌, ◌==◌, select,
  or_else, if◌then◌else◌, is_empty,
}
use core_lab.Data.Row.{Text, Instant}
use core_lab.Session.Write.{codes}
use core_lab.RateLimit.Lock.{login_lock_manager, subject_locked, record_failure, record_success}
use core_lab.Users.Tables.{
  User, Role, Outside, LoginDenial, AuditEvent, Db, ServiceError, Outcome, one_or_none, find_user,
  update_user_row, audit, now,
}

-- `hash_password`, with the salt of the given draw.
unfoldable pub hash_password : Outside → (draws : ℕ) → Text → Text
hash_password outside draws plaintext = outside.hashpw plaintext (outside.gensalt draws)

abbrev checked : Option Bool → Bool
checked none = false
checked (some b) = b

-- `verify_password`
unfoldable pub verify_password : Outside → (plaintext password_hash : Text) → Bool
verify_password outside plaintext password_hash =
    if is_empty password_hash then false else checked (outside.checkpw plaintext password_hash)

pub record LoginRequest : Type 0 where
  pub username : Text
  pub password : Text

-- The payload of an access token, before it is signed. The times are milliseconds.
pub record Claims : Type 0 where
  pub sub : ℕ
  pub lab_id : ℕ
  pub role : Role
  pub iat : Instant
  pub exp : Instant

pub record LoginResponse : Type 0 where
  pub access_token : Claims
  pub expires_at : Instant
  pub user : User

-- `issue_access_token`
unfoldable pub issue_access_token : Outside → User → Instant → Claims
issue_access_token outside u issued_at = record {
  sub = u.id;
  lab_id = u.lab_id;
  role = u.role;
  iat = issued_at;
  exp = issued_at + outside.jwt_access_ttl_minutes * 60000;
}

abbrev pub lock_subject : LoginRequest → (request_ip : Option Text) → Text
lock_subject payload request_ip =
    payload.username ++ (codes ":" ++ or_else (codes "noip") request_ip)

-- The accounts whose name or address is the given text, in any lab.
abbrev pub is_called : Outside → Text → User → Bool
is_called outside name u = outside.same_text u.username name || outside.same_text u.email name

abbrev pub failed_login : Text → AuditEvent → Db → Outcome LoginResponse × Db
failed_login subject event db = (
  Outcome.failed ServiceError.invalid_credentials,
  record (audit event db) {
    locks = (record_failure login_lock_manager subject (now db) db.locks).1;
  },
)

abbrev pub logged_in : Outside → Text → User → Db → Outcome LoginResponse × Db
logged_in outside subject u db =
    let token = issue_access_token outside u (now db) in
    let u' = record u { last_login_at = some (now db) } in
    (
      Outcome.done (record { access_token = token; expires_at = token.exp; user = u' }),
      record (audit (AuditEvent.login u.id) db) {
        users = update_user_row u.id (λ u. record u { last_login_at = some (now db) }) db.users;
        locks = record_success login_lock_manager subject db.locks;
      },
    )

abbrev pub with_hash :
    Outside → Text → LoginRequest → User → Db → Option Text → Outcome LoginResponse × Db
with_hash outside subject payload u db none =
    failed_login subject (AuditEvent.login_unknown payload.username) db
with_hash outside subject payload u db (some password_hash) =
    if verify_password outside payload.password password_hash
    then (if u.is_active then logged_in outside subject u db else (
      Outcome.failed ServiceError.account_disabled,
      audit (AuditEvent.login_denied u.id LoginDenial.account_disabled) db,
    ))
    else failed_login subject (AuditEvent.login_denied u.id LoginDenial.invalid_credentials) db

abbrev pub login_as :
    Outside → Text → LoginRequest → Db → Outcome (Option User) → Outcome LoginResponse × Db
login_as outside subject payload db (Outcome.failed e) = (Outcome.failed e, db)
login_as outside subject payload db (Outcome.done none) =
    failed_login subject (AuditEvent.login_unknown payload.username) db
login_as outside subject payload db (Outcome.done (some u)) =
    with_hash outside subject payload u db u.password_hash

-- `authenticate`
unfoldable pub authenticate :
    Outside → LoginRequest → (request_ip : Option Text) → Db → Outcome LoginResponse × Db
authenticate outside payload request_ip db =
    let subject = lock_subject payload request_ip in
    let (locked, store) = subject_locked login_lock_manager subject (now db) db.locks in
    let db' = record db { locks = store } in
    if locked
    then (Outcome.failed ServiceError.account_locked, db')
    else login_as outside subject payload db'
        (one_or_none (select (is_called outside payload.username) db.users))

-- `record_logout`
unfoldable pub record_logout : (actor_user_id : ℕ) → Db → Db
record_logout actor_user_id db = audit (AuditEvent.logout actor_user_id) db

abbrev pub if_active : Option User → Option User
if_active none = none
if_active (some u) = if u.is_active then some u else none

-- `get_current_user`, from the claims of a token whose signature and expiry were verified.
unfoldable pub get_current_user : Claims → Db → Option User
get_current_user claims db = if_active (find_user claims.sub db.users)
