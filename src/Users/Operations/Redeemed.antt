-- ===== src/Users/Operations/Redeemed.antt =====
-- What redeeming a token leaves of a lab's administrators.
use core_lab.Prelude.{ℕ, ◌≡◌, true, Option, none, some, [], ◌∷◌, arith, select}
use core_lab.Data.Row.{Text}
use core_lab.Accounts.Tables.{SshPublicKey}
use core_lab.Users.Tables.{
  User, Purpose, SetupToken, RegistrationInvite, Outside, Db, ServiceError, Outcome, one_or_none,
  find_user, audit, AuditEvent,
}
use core_lab.Users.Keys.{
  add_key, remove_key, add_parsed, add_new, parse_public_key, PublicKey, fingerprint_sha256,
  same_key, new_key,
}
use core_lab.Users.Login.{hash_password}
use core_lab.Users.Tokens.{lookup_active_token, lookup_active_registration_invite}
use core_lab.Users.Manage.{is_active_admin, new_user}
use core_lab.Users.Activate.{
  Activation, activate, activated, used_token, used_invite, add_given_key, key_for, redeem,
  redeem_for, register, complete_registration_invite, complete_for, with_profile, profile,
  activate_with,
}
use core_lab.Users.Admins.{has_admin, Keeps, has_admin-append, has_admin-update, and_then-Keeps}

module _ (lab : ℕ) where
  pub add_key-Keeps :
      (outside : Outside) (public_key : Text) (label : Option Text) (owner : ℕ) (db : Db)
      → has_admin lab db.users ≡ true
      → Keeps lab (add_key outside public_key label owner db)
  unfolding add_key
  add_key-Keeps outside public_key label owner db h = parsed (parse_public_key outside public_key)
    where
      added :
          (row : SshPublicKey) (r : Outcome (Option SshPublicKey)) → Keeps lab (add_new row db r)
      added row (Outcome.failed e) = h
      added row (Outcome.done none) = h
      added row (Outcome.done (some k)) = h

      parsed : (r : Outcome PublicKey) → Keeps lab (add_parsed outside public_key label owner db r)
      parsed (Outcome.failed e) = h
      parsed (Outcome.done key) =
          added (new_key public_key label owner key (fingerprint_sha256 outside key.blob) db) (
            one_or_none
              (select (same_key owner (fingerprint_sha256 outside key.blob)) db.accounts.keys))

  pub remove_key-Keeps :
      (key_id owner : ℕ) (db : Db)
      → has_admin lab db.users ≡ true
      → Keeps lab (remove_key key_id owner db)
  unfolding remove_key
  remove_key-Keeps key_id owner db h = ground (arith, h)

  given_key-Keeps :
      (outside : Outside) (key : Option Text) (a : Activation) (n : ℕ) (db : Db)
      → has_admin lab db.users ≡ true
      → Keeps lab (add_given_key outside key a n db)
  given_key-Keeps outside none a n db h = h
  given_key-Keeps outside (some key) a n db h =
      and_then-Keeps lab (add_key outside key a.ssh_key_label n db)
        (λ k db. (Outcome.done true, db)) (add_key-Keeps outside key a.ssh_key_label n db h)
        (λ k db h. h)

  activated-admin :
      (p : Purpose) (a : Activation) (hash : Text) (u : User)
      → is_active_admin lab u ≡ true
      → is_active_admin lab (activated p a hash u) ≡ true
  activated-admin Purpose.activation a hash u h = h
  activated-admin Purpose.password_reset a hash u h = h
  activated-admin (Purpose.other p) a hash u h = h

  redeem-Keeps :
      (outside : Outside) (t : SetupToken) (a : Activation) (u : User) (db : Db)
      → has_admin lab db.users ≡ true
      → Keeps lab (redeem outside t a u db)
  redeem-Keeps outside t a u db h = ground (
    arith,
    h,
    and_then-Keeps lab
        (add_given_key outside (key_for t.purpose a) a u.id (used_token outside t a db))
        (λ added db. (Outcome.done new, audit (AuditEvent.token_activated u.id) db))
        (given_key-Keeps outside (key_for t.purpose a) a u.id (used_token outside t a db) (
          has_admin-update lab t.user_id (activated t.purpose a hash)
            (activated-admin t.purpose a hash) db.users h))
        (λ added db h. h),
  )
    where
      hash : Text
      hash = hash_password outside db.draws a.new_password

      new : User
      new = activated t.purpose a hash u

  register-Keeps :
      (outside : Outside) (i : RegistrationInvite) (a : Activation) (u : User) (db : Db)
      → has_admin lab db.users ≡ true
      → Keeps lab (register outside i a u db)
  register-Keeps outside i a u db h = ground (
    arith,
    h,
    and_then-Keeps lab (add_given_key outside a.ssh_key_public_key a u.id (used_invite i u db))
        (λ added db. (
          Outcome.done u,
          audit (AuditEvent.invite_consumed u.id i.id)
              (audit (AuditEvent.registered u.id i.id u.role) db),
        ))
        (given_key-Keeps outside a.ssh_key_public_key a u.id (used_invite i u db)
          (has_admin-append lab db.users (u ∷ []) h))
        (λ added db h. h),
  )

  pub activate-Keeps :
      (outside : Outside) (token : Text) (a : Activation) (db : Db)
      → has_admin lab db.users ≡ true
      → Keeps lab (activate outside token a db)
  unfolding activate complete_registration_invite
  activate-Keeps outside token a db h = with_token (lookup_active_token outside token db)
    where
      completed :
          (i : RegistrationInvite) (o : Option (Text × Text × Text))
          → Keeps lab (with_profile outside i a db o)
      completed i none = h
      completed i (some (username, email, display_name)) =
          register-Keeps outside i a
            (new_user db.next_user_id i.lab_id
              (record {
                username = username;
                email = email;
                display_name = display_name;
                role = i.role;
              })
              (some (hash_password outside db.draws a.new_password)) i.created_by_user_id)
            db h

      with_invite : (r : Outcome RegistrationInvite) → Keeps lab (complete_for outside a db r)
      with_invite (Outcome.failed e) = h
      with_invite (Outcome.done i) = completed i (profile a.username a.email a.display_name)

      found : (t : SetupToken) (o : Option User) → Keeps lab (redeem_for outside t a o db)
      found t none = h
      found t (some u) = redeem-Keeps outside t a u db h

      with_token :
          (r : Outcome SetupToken)
          → Keeps lab
              (activate_with outside a (lookup_active_registration_invite outside token db) db r)
      with_token (Outcome.done t) = found t (find_user t.user_id db.users)
      with_token (Outcome.failed ServiceError.token_not_found) =
          with_invite (lookup_active_registration_invite outside token db)
      with_token (Outcome.failed e) = h
