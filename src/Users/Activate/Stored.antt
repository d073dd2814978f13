-- ===== src/Users/Activate/Stored.antt =====
-- The row of the user whom `activate` returns is in the table.
use core_lab.Prelude.{
  ℕ, ◌≡◌, refl, sym, ap, ◌∙◌, subst, ◌⊎◌, inl, inr, Bool, true, false, Option, none, some, List, [],
  ◌∷◌, ◌++◌, ◌==◌, arith, length, select, Bool-cases, first_some, some_of, if◌then◌else◌,
}
use core_lab.Data.Row.{Text}
use core_lab.Accounts.Tables.{SshPublicKey}
use core_lab.Users.Tables.{
  User, SetupToken, RegistrationInvite, Outside, Db, ServiceError, Outcome, and_then, find_user,
  update_user_row, unless_refused, flush_user, clashes, one_or_none, audit, AuditEvent,
}
use core_lab.Users.Keys.{
  PublicKey, parse_public_key, fingerprint_sha256, same_key, new_key, add_key, add_new, add_parsed,
}
use core_lab.Users.Login.{hash_password}
use core_lab.Users.Tokens.{lookup_active_token, lookup_active_registration_invite}
use core_lab.Users.Manage.{new_user, add_user_row}
use core_lab.Users.Activate.{
  Activation, activate, activated, used_token, used_invite, add_given_key, key_for, redeem,
  redeem_for, register, complete_registration_invite, complete_for, with_profile, profile,
  activate_with, check_purpose, validate_new_registration_profile, validate_registration_ssh_key,
}

-- The user is a row of the table.
abbrev pub Has : User → List User → Type 0
Has u [] = ⊥
Has u (v ∷ users) = (v ≡ u) ⊎ Has u users

Has-append : (u : User) (users : List User) → Has u (users ++ u ∷ [])
Has-append u [] = inl refl
Has-append u (v ∷ users) = inr (Has-append u users)

Has-update :
    (n : ℕ) (f : User → User) (users : List User) (v : User)
    → find_user n users ≡ some v
    → Has (f v) (update_user_row n f users)
unfolding find_user update_user_row
Has-update n f [] v h = cc
Has-update n f (u ∷ users) v h = elim (Bool-cases (u.id == n)) [
  | inl e ↦ ground (arith, e, h)
  | inr e ↦ ground (arith, e, h, Has-update n f users v)
]

Has-select :
    (p : User → Bool) (u : User) (users : List User)
    → p u ≡ true
    → Has u users
    → Has u (select p users)
Has-select p u [] h k = elim k [ ]
Has-select p u (v ∷ users) h (inl e) =
    subst (λ (b : Bool). Has u (if b then v ∷ select p users else select p users))
      (sym (ap p e ∙ h)) (inl e)
Has-select p u (v ∷ users) h (inr k) = elim (Bool-cases (p v)) [
  | inl e ↦
      subst (λ (b : Bool). Has u (if b then v ∷ select p users else select p users)) (sym e)
        (inr (Has-select p u users h k))
  | inr e ↦
      subst (λ (b : Bool). Has u (if b then v ∷ select p users else select p users)) (sym e)
        (Has-select p u users h k)
]

Has-one : (u : User) (users : List User) → Has u users → length users ≡ 1 → users ≡ u ∷ []
Has-one u [] k h = elim k [ ]
Has-one u (v ∷ []) (inl e) h = ap (λ x. x ∷ []) e
Has-one u (v ∷ []) (inr k) h = elim k [ ]
Has-one u (v ∷ w ∷ users) k h = elim two [ ]
  where
    two : ⊥
    two = omega arith

-- A row that passes a test which only one row passes.
pub Has-only :
    (p : User → Bool) (u : User) (users : List User)
    → p u ≡ true
    → Has u users
    → length (select p users) ≡ 1
    → select p users ≡ u ∷ []
Has-only p u users h k one = Has-one u (select p users) (Has-select p u users h k) one

-- If a user is returned, its row is in the table.
abbrev Written : Outcome User × Db → Type 0
Written r = (u : User) → r.0 ≡ Outcome.done u → Has u r.1.users

failed-Written : (e : ServiceError) (db : Db) → Written (Outcome.failed e, db)
failed-Written e db u h = cc

last-Written :
    {A : Type 0} (r : Outcome A × Db) (v : User) (next : A → Db → Db) (users : List User)
    → r.1.users ≡ users
    → ((x : A) (db : Db) → (next x db).users ≡ db.users)
    → Has v users
    → Written (and_then r (λ x db. (Outcome.done v, next x db)))
last-Written (Outcome.failed e, db) v next users same keep there u h = cc
last-Written (Outcome.done x, db) v next users same keep there u h =
    subst (λ w. Has w (next x db).users) (ground (arith, h))
      (subst (Has v) (sym (keep x db ∙ same)) there)

unless-Written :
    (o : Option ServiceError) (db : Db) (r : Outcome User × Db)
    → Written r
    → Written (unless_refused o db r)
unless-Written none db r h = h
unless-Written (some e) db r h = failed-Written e db

flush-Written :
    (outside : Outside) (u : User) (e : ServiceError) (before after : Db) (r : Outcome User × Db)
    → Written r
    → Written (flush_user outside u e before after r)
flush-Written outside u e before after r h = by_test (some_of (clashes outside u) after.users)
  where
    by_test : (b : Bool) → Written (if b then (Outcome.failed e, before) else r)
    by_test true = failed-Written e before
    by_test false = h

add_key-users :
    (outside : Outside) (public_key : Text) (label : Option Text) (owner : ℕ) (db : Db)
    → (add_key outside public_key label owner db).1.users ≡ db.users
unfolding add_key
add_key-users outside public_key label owner db = parsed (parse_public_key outside public_key)
  where
    added :
        (row : SshPublicKey) (r : Outcome (Option SshPublicKey))
        → (add_new row db r).1.users ≡ db.users
    added row (Outcome.failed e) = refl
    added row (Outcome.done none) = refl
    added row (Outcome.done (some k)) = refl

    parsed :
        (r : Outcome PublicKey)
        → (add_parsed outside public_key label owner db r).1.users ≡ db.users
    parsed (Outcome.failed e) = refl
    parsed (Outcome.done key) =
        added (new_key public_key label owner key (fingerprint_sha256 outside key.blob) db) (
          one_or_none
            (select (same_key owner (fingerprint_sha256 outside key.blob)) db.accounts.keys))

given_key-users :
    (outside : Outside) (key : Option Text) (a : Activation) (n : ℕ) (db : Db)
    → (add_given_key outside key a n db).1.users ≡ db.users
given_key-users outside none a n db = refl
given_key-users outside (some key) a n db =
    kept (add_key outside key a.ssh_key_label n db) (add_key-users outside key a.ssh_key_label n db)
  where
    kept :
        (r : Outcome SshPublicKey × Db)
        → r.1.users ≡ db.users
        → (and_then r (λ k db. (Outcome.done true, db))).1.users ≡ db.users
    kept (Outcome.failed e, after) h = h
    kept (Outcome.done k, after) h = h

module _ (outside : Outside) (a : Activation) (db : Db) where
  redeem-Written :
      (t : SetupToken) (v : User)
      → find_user t.user_id db.users ≡ some v
      → Written (redeem outside t a v db)
  redeem-Written t v there = unless-Written (check_purpose outside t.purpose v a db) db _ (
      flush-Written outside (activated t.purpose a hash v) ServiceError.integrity_error db
        (used_token outside t a db) _
        (last-Written
          (add_given_key outside (key_for t.purpose a) a v.id (used_token outside t a db))
          (activated t.purpose a hash v) (λ added db. audit (AuditEvent.token_activated v.id) db)
          (used_token outside t a db).users
          (given_key-users outside (key_for t.purpose a) a v.id (used_token outside t a db))
          (λ x db. refl) (Has-update t.user_id (activated t.purpose a hash) db.users v there)))
    where
      hash : Text
      hash = hash_password outside db.draws a.new_password

  register-Written : (i : RegistrationInvite) (v : User) → Written (register outside i a v db)
  register-Written i v =
      unless-Written
        (first_some (validate_new_registration_profile outside i.lab_id v.username v.email db)
          (validate_registration_ssh_key outside none a.ssh_key_public_key db))
        db _
        (flush-Written outside v ServiceError.username_or_email_taken db (add_user_row v db) _ (
          last-Written (add_given_key outside a.ssh_key_public_key a v.id (used_invite i v db)) v
            (λ added db.
              audit (AuditEvent.invite_consumed v.id i.id)
                (audit (AuditEvent.registered v.id i.id v.role) db))
            (used_invite i v db).users
            (given_key-users outside a.ssh_key_public_key a v.id (used_invite i v db))
            (λ x db. refl) (Has-append v db.users)))

  -- A user whom `activate` returns is a row of the table that it leaves.
  pub activate-Has :
      (token : Text) (u : User)
      → (activate outside token a db).0 ≡ Outcome.done u
      → Has u (activate outside token a db).1.users
  unfolding activate complete_registration_invite
  activate-Has token = with_token (lookup_active_token outside token db)
    where
      found :
          (t : SetupToken) (o : Option User)
          → find_user t.user_id db.users ≡ o
          → Written (redeem_for outside t a o db)
      found t none there = failed-Written ServiceError.user_no_longer_exists db
      found t (some v) there = redeem-Written t v there

      completed :
          (i : RegistrationInvite) (o : Option (Text × Text × Text))
          → Written (with_profile outside i a db o)
      completed i none = failed-Written ServiceError.registration_requires_profile db
      completed i (some (username, email, display_name)) = register-Written i (
          new_user db.next_user_id i.lab_id
            (record {
              username = username;
              email = email;
              display_name = display_name;
              role = i.role;
            })
            (some (hash_password outside db.draws a.new_password)) i.created_by_user_id)

      with_invite : (r : Outcome RegistrationInvite) → Written (complete_for outside a db r)
      with_invite (Outcome.failed e) = failed-Written e db
      with_invite (Outcome.done i) = completed i (profile a.username a.email a.display_name)

      with_token :
          (r : Outcome SetupToken)
          → Written
              (activate_with outside a (lookup_active_registration_invite outside token db) db r)
      with_token (Outcome.done t) u h = found t (find_user t.user_id db.users) refl u h
      with_token (Outcome.failed ServiceError.token_not_found) u h =
          with_invite (lookup_active_registration_invite outside token db) u h
      with_token (Outcome.failed e) u h = ground (arith, h)
