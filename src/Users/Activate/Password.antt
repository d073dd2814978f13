-- ===== src/Users/Activate/Password.antt =====
-- The password that a token was redeemed with opens the account.
use core_lab.Prelude.{
  ℕ, ◌≡◌, refl, true, false, Option, none, some, [], ◌∷◌, arith, select, is_empty, length,
}
use core_lab.Data.Row.{Text}
use core_lab.RateLimit.Lock.{login_lock_manager, subject_locked}
use core_lab.Users.Tables.{
  User, Purpose, SetupToken, RegistrationInvite, Outside, Db, ServiceError, Outcome, and_then,
  find_user, now, audit, AuditEvent,
}
use core_lab.Users.Login.{
  LoginResponse, hash_password, verify_password, authenticate, lock_subject, is_called,
  issue_access_token,
}
use core_lab.Users.Tokens.{lookup_active_token, lookup_active_registration_invite}
use core_lab.Users.Manage.{new_user}
use core_lab.Users.Activate.Stored.{Has-only, activate-Has}
use core_lab.Users.Activate.{
  Activation, activate, activated, used_token, used_invite, add_given_key, key_for, redeem,
  redeem_for, register, complete_registration_invite, complete_for, with_profile, profile,
  activate_with,
}

-- What bcrypt promises: a password matches its own hash, which is not empty.
pub record Bcrypt (outside : Outside) : Type 0 where
  pub matches : (p s : Text) → outside.checkpw p (outside.hashpw p s) ≡ some true
  pub not_empty : (p s : Text) → is_empty (outside.hashpw p s) ≡ false

verify-hash_password :
    (outside : Outside)
    → Bcrypt outside
    → (draws : ℕ) (p : Text) → verify_password outside p (hash_password outside draws p) ≡ true
unfolding verify_password hash_password
verify-hash_password outside bcrypt draws p =
    ground
      (arith, bcrypt.matches p (outside.gensalt draws), bcrypt.not_empty p (outside.gensalt draws))

module _ (outside : Outside) (a : Activation) (db : Db) (u : User) where
  abbrev hash : Text
  hash = hash_password outside db.draws a.new_password

  activated-password : (p : Purpose) (v : User) → (activated p a hash v).password_hash ≡ some hash
  activated-password Purpose.activation v = refl
  activated-password Purpose.password_reset v = refl
  activated-password (Purpose.other p) v = refl

  and_then-last :
      {A : Type 0} (r : Outcome A × Db) (v : User) (next : A → Db → Db)
      → (and_then r (λ x db. (Outcome.done v, next x db))).0 ≡ Outcome.done u
      → v ≡ u
  and_then-last (Outcome.failed e, db) v next h = ground (arith, h)
  and_then-last (Outcome.done x, db) v next h = ground (arith, h)

  redeem-password :
      (t : SetupToken) (v : User)
      → (redeem outside t a v db).0 ≡ Outcome.done u
      → u.password_hash ≡ some hash
  redeem-password t v h = ground (
    arith,
    h,
    activated-password t.purpose v,
    and_then-last (add_given_key outside (key_for t.purpose a) a v.id (used_token outside t a db))
        (activated t.purpose a hash v) (λ added db. audit (AuditEvent.token_activated v.id) db),
  )

  register-password :
      (i : RegistrationInvite) (v : User)
      → v.password_hash ≡ some hash
      → (register outside i a v db).0 ≡ Outcome.done u
      → u.password_hash ≡ some hash
  register-password i v same h = ground (
    arith,
    h,
    same,
    and_then-last (add_given_key outside a.ssh_key_public_key a v.id (used_invite i v db)) v
        (λ added db.
          audit (AuditEvent.invite_consumed v.id i.id)
            (audit (AuditEvent.registered v.id i.id v.role) db)),
  )

  activate-password :
      (token : Text)
      → (activate outside token a db).0 ≡ Outcome.done u
      → u.password_hash ≡ some hash
  unfolding activate complete_registration_invite
  activate-password token h = with_token (lookup_active_token outside token db) h
    where
      found :
          (t : SetupToken) (o : Option User)
          → (redeem_for outside t a o db).0 ≡ Outcome.done u
          → u.password_hash ≡ some hash
      found t none h = ground (arith, h)
      found t (some v) h = redeem-password t v h

      completed :
          (i : RegistrationInvite) (o : Option (Text × Text × Text))
          → (with_profile outside i a db o).0 ≡ Outcome.done u
          → u.password_hash ≡ some hash
      completed i none h = ground (arith, h)
      completed i (some (username, email, display_name)) h =
          register-password i
            (new_user db.next_user_id i.lab_id
              (record {
                username = username;
                email = email;
                display_name = display_name;
                role = i.role;
              })
              (some hash) i.created_by_user_id)
            refl h

      with_invite :
          (r : Outcome RegistrationInvite)
          → (complete_for outside a db r).0 ≡ Outcome.done u
          → u.password_hash ≡ some hash
      with_invite (Outcome.failed e) h = ground (arith, h)
      with_invite (Outcome.done i) h = completed i (profile a.username a.email a.display_name) h

      with_token :
          (r : Outcome SetupToken)
          → (activate_with outside a (lookup_active_registration_invite outside token db) db r).0
            ≡ Outcome.done u
          → u.password_hash ≡ some hash
      with_token (Outcome.done t) h = found t (find_user t.user_id db.users) h
      with_token (Outcome.failed ServiceError.token_not_found) h =
          with_invite (lookup_active_registration_invite outside token db) h
      with_token (Outcome.failed e) h = ground (arith, h)

-- A login of a user that is found, active and not locked, with the password of its hash.
login-done :
    (outside : Outside) (u : User) (name password hash : Text) (ip : Option Text) (db : Db)
    → u.password_hash ≡ some hash
    → verify_password outside password hash ≡ true
    → u.is_active ≡ true
    → select (is_called outside name) db.users ≡ u ∷ []
    → (subject_locked login_lock_manager
        (lock_subject (record { username = name; password = password }) ip)
        (now db)
        db.locks).0
      ≡ false
    → (r : LoginResponse) × ((authenticate outside
          (record { username = name; password = password })
          ip
          db).0
        ≡ Outcome.done r)
      × (r.access_token ≡ issue_access_token outside u (now db))
unfolding authenticate
login-done outside u name password hash ip db hashed verified active only open_ = (
  record {
    access_token = issue_access_token outside u (now db);
    expires_at = (issue_access_token outside u (now db)).exp;
    user = record u { last_login_at = some (now db) };
  },
  ground (arith, hashed, verified, active, only, open_),
  refl,
)

-- Where a token, of either kind, was redeemed with success, and the user it gave is active, called by
-- its own name, and not locked out, and the database finds just one row under that name, the login
-- with that name and the password that was set succeeds, and gives a token for that user.
pub activate-login :
    (outside : Outside) (token : Text) (a : Activation) (db : Db) (u : User) (ip : Option Text)
    → Bcrypt outside
    → (activate outside token a db).0 ≡ Outcome.done u
    → u.is_active ≡ true
    → outside.same_text u.username u.username ≡ true
    → length (select (is_called outside u.username) (activate outside token a db).1.users) ≡ 1
    → (subject_locked login_lock_manager
        (lock_subject (record { username = u.username; password = a.new_password }) ip)
        (now (activate outside token a db).1)
        (activate outside token a db).1.locks).0
      ≡ false
    → (r : LoginResponse) × ((authenticate outside
          (record { username = u.username; password = a.new_password })
          ip
          (activate outside token a db).1).0
        ≡ Outcome.done r)
      × (r.access_token ≡ issue_access_token outside u (now (activate outside token a db).1))
activate-login outside token a db u ip bcrypt redeemed active itself one open_ =
    login-done outside u u.username a.new_password (hash_password outside db.draws a.new_password)
      ip (activate outside token a db).1 (activate-password outside a db u token redeemed)
      (verify-hash_password outside bcrypt db.draws a.new_password) active
      (Has-only (is_called outside u.username) u (activate outside token a db).1.users
        (ground (arith, itself)) (activate-Has outside a db token u redeemed) one)
      open_
