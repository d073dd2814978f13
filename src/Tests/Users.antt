-- ===== src/Tests/Users.antt =====
-- The theorems on users, at a lab of an administrator and a user.
use core_lab.Prelude.{◌≡◌, arith, refl, ap, true, false, none, some, List, [], ◌∷◌, select, length}
use core_lab.Data.Strings.{text_eq}
use core_lab.Data.Strings.Equal.{text_eq_refl}
use core_lab.Session.Write.{codes}
use core_lab.RateLimit.Window.{Store, bucket_after_hit, is_locked}
use core_lab.RateLimit.Window.Count.{bucket_of}
use core_lab.RateLimit.Lock.{login_lock_manager, subject_locked}
use core_lab.RateLimit.Lock.Locked.{Logged}
use core_lab.Accounts.Tables.{RequestStatus}
use core_lab.Users.Tables.{
  User, Role, Purpose, SetupToken, ServerAdminGrant, Outside, Db, ServiceError, Outcome, find_user,
  update_user_row, now,
}
use core_lab.Users.Login.{
  LoginRequest, LoginResponse, hash_password, verify_password, authenticate, lock_subject,
  is_called, issue_access_token,
}
use core_lab.Users.Login.Locked.{at, authenticate-locked}
use core_lab.Users.Tokens.{is_unused, has_hash, new_token, issue_setup_token, lookup_active_token}
use core_lab.Users.Tokens.Supersede.{issue-supersedes}
use core_lab.Users.Manage.{disable_user, set_active}
use core_lab.Users.Manage.Disabled.{ShutOut, disable-ShutOut}
use core_lab.Users.Activate.{Activation, activate, update_token, check_purpose}
use core_lab.Users.Activate.Once.{activate-once}
use core_lab.Users.Activate.Password.{Bcrypt, activate-login}
use core_lab.Users.Admins.{has_admin}
use core_lab.Users.Operations.{Operation, run}
use core_lab.Users.Operations.LastAdmin.{run-admin}
use core_lab.Tests.Accounts.{db_with, links-Unique, never}

-- A hash is the password after a mark, and texts are equal when they are the same.
abbrev outside : Outside
outside = record {
  gensalt = λ n. n ∷ [];
  hashpw = λ password salt. 1 ∷ password;
  checkpw = λ password hash. some (text_eq hash (1 ∷ password));
  token_urlsafe = λ n. n ∷ 5 ∷ [];
  sha256_hex = λ text. 2 ∷ text;
  b64decode = λ text. some text;
  fingerprint_of = λ bytes. bytes;
  same_text = text_eq;
  setup_token_ttl_hours = 24;
  jwt_access_ttl_minutes = 480;
}

abbrev admin : User
admin = record {
  id = 1;
  lab_id = 7;
  username = codes "amy";
  email = codes "amy@lab";
  password_hash = some (1 ∷ codes "secret");
  display_name = codes "Amy";
  role = Role.lab_admin;
  is_active = true;
  last_login_at = none;
  created_by_user_id = none;
}

abbrev bob : User
bob = record admin {
  id = 9;
  username = codes "bob";
  email = codes "bob@lab";
  password_hash = some (1 ∷ codes "old");
  display_name = codes "Bob";
  role = Role.user;
}

abbrev reset_token : SetupToken
reset_token = record {
  id = 3;
  user_id = 9;
  token_hash = 2 ∷ codes "t";
  purpose = Purpose.password_reset;
  expires_at = 86_400_000;
  used_at = none;
  created_by_user_id = some 1;
}

abbrev grant : ServerAdminGrant
grant = record {
  id = 4;
  user_id = 9;
  server_id = 2;
  granted_by_user_id = 1;
  is_active = true;
  revoked_by_user_id = none;
  revoked_at = none;
}

abbrev quiet : Store
quiet = record { buckets = λ key. []; locks_until_ms = λ key. none }

abbrev two_failures : Store
two_failures = record { buckets = λ key. 10 ∷ 20 ∷ []; locks_until_ms = λ key. none }

abbrev db_of : Store → Db
db_of locks = record {
  users = admin ∷ bob ∷ [];
  next_user_id = 10;
  setup_tokens = reset_token ∷ [];
  next_token_id = 5;
  invites = [];
  next_invite_id = 1;
  grants = grant ∷ [];
  accounts = db_with RequestStatus.pending;
  next_key_id = 6;
  locks = locks;
  draws = 0;
  audits = [];
}

abbrev db : Db
db = db_of quiet

abbrev day : List Operation
day =
    Operation.set_role 9 Role.lab_admin 1 7
    ∷ Operation.disable 1 9 7
    ∷ Operation.set_role 9 Role.user 1 7
    ∷ Operation.disable 9 1 7
    ∷ []

run-admin_example : has_admin 7 (run outside never day db).users ≡ true
run-admin_example = run-admin 7 outside never day db refl

abbrev new_password : Activation
new_password = record {
  new_password = codes "new";
  username = none;
  email = none;
  display_name = none;
  ssh_key_label = none;
  ssh_key_public_key = none;
}

abbrev bob' : User
bob' = record bob { password_hash = some (1 ∷ codes "new") }

reset_done : (activate outside (codes "t") new_password db).0 ≡ Outcome.done bob'
unfolding activate lookup_active_token text_eq find_user check_purpose update_user_row update_token
    hash_password
reset_done = refl

activate-once_example :
    activate outside (codes "t") new_password (activate outside (codes "t") new_password db).1 ≡ (
      Outcome.failed ServiceError.token_already_used,
      (activate outside (codes "t") new_password db).1,
    )
activate-once_example =
    activate-once outside (codes "t") new_password new_password db bob' reset_done

bcrypt : Bcrypt outside
bcrypt = record { matches = λ p s. ap some (text_eq_refl (1 ∷ p)); not_empty = λ p s. refl }

bob_equal : text_eq (codes "bob") (codes "bob") ≡ true
unfolding text_eq
bob_equal = refl

only_bob :
    length (
      select
        (is_called outside (codes "bob"))
        (activate outside (codes "t") new_password db).1.users)
    ≡ 1
unfolding activate lookup_active_token text_eq find_user check_purpose update_user_row update_token
    hash_password
only_bob = refl

not_locked :
    (subject_locked login_lock_manager
      (lock_subject (record { username = codes "bob"; password = codes "new" }) none)
      (now (activate outside (codes "t") new_password db).1)
      (activate outside (codes "t") new_password db).1.locks).0
    ≡ false
unfolding activate lookup_active_token text_eq find_user check_purpose update_user_row update_token
    hash_password subject_locked is_locked
not_locked = refl

activate-login_example :
    (r : LoginResponse) × ((authenticate outside
        (record { username = codes "bob"; password = codes "new" })
        none
        (activate outside (codes "t") new_password db).1).0
      ≡ Outcome.done r)
    × (r.access_token
        ≡ issue_access_token outside bob' (now (activate outside (codes "t") new_password db).1))
activate-login_example =
    activate-login outside (codes "t") new_password db bob' none bcrypt reset_done refl bob_equal
      only_bob not_locked

abbrev guess : LoginRequest
guess = record { username = codes "bob"; password = codes "guess" }

logged :
    Logged login_lock_manager (lock_subject guess none) (20 ∷ 10 ∷ []) (db_of two_failures).locks
unfolding bucket_of bucket_after_hit
logged = refl

wrong :
    (authenticate outside guess none (db_of two_failures)).0
    ≡ Outcome.failed ServiceError.invalid_credentials
unfolding authenticate subject_locked is_locked text_eq verify_password
wrong = refl

authenticate-locked_example :
    (authenticate outside
      (record guess { password = codes "old" })
      none
      (at 200_000 (record (authenticate outside guess none (db_of two_failures)).1 {
        users = admin ∷ bob ∷ [];
      }))).0
    ≡ Outcome.failed ServiceError.account_locked
authenticate-locked_example =
    authenticate-locked outside guess none (20 ∷ 10 ∷ []) (db_of two_failures) logged
      (ground arith, (ground arith, tt)) wrong (ground arith) 200_000 (admin ∷ bob ∷ [])
      (codes "old") (ground arith)

bob_there : find_user 9 db.users ≡ some bob
unfolding find_user
bob_there = refl

disable-ShutOut_example :
    ((disable_user never 9 1 7 db).0 ≡ Outcome.done (set_active false bob))
    × ShutOut 9 (disable_user never 9 1 7 db).1
disable-ShutOut_example =
    disable-ShutOut never 9 1 7 db bob (λ c. refl) links-Unique (refl, tt) (λ s. ground arith)
      bob_there refl refl refl

fresh : select (has_hash (2 ∷ 0 ∷ 5 ∷ [])) db.setup_tokens ≡ []
unfolding text_eq
fresh = refl

found_before : lookup_active_token outside (codes "t") db ≡ Outcome.done reset_token
unfolding lookup_active_token text_eq
found_before = refl

issue-supersedes_example :
    (select
        (is_unused 9)
        (issue_setup_token outside 9 Purpose.password_reset (some 1) db).1.setup_tokens
      ≡ new_token outside 9 Purpose.password_reset (some 1) db ∷ [])
    × (lookup_active_token outside
          (issue_setup_token outside 9 Purpose.password_reset (some 1) db).0.0
          (issue_setup_token outside 9 Purpose.password_reset (some 1) db).1
        ≡ Outcome.done (new_token outside 9 Purpose.password_reset (some 1) db))
    × (lookup_active_token outside
          (codes "t")
          (issue_setup_token outside 9 Purpose.password_reset (some 1) db).1
        ≡ Outcome.failed ServiceError.token_already_used)
issue-supersedes_example =
    issue-supersedes outside 9 Purpose.password_reset (some 1) db (codes "t") reset_token fresh
      (ground arith) found_before refl
