-- ===== src/Users/Activate/Marked.antt =====
-- How redeeming a token changes the tables of tokens and invites.
use core_lab.Prelude.{
  ℕ, ◌≡◌, refl, ◌∙◌, Bool, true, Option, none, some, List, [], ◌∷◌, arith, select,
}
use core_lab.Data.Row.{Text, Instant}
use core_lab.Accounts.Tables.{SshPublicKey}
use core_lab.Users.Tables.{
  User, SetupToken, RegistrationInvite, Outside, Db, Outcome, and_then, one_or_none, audit,
  AuditEvent, now,
}
use core_lab.Users.Keys.{
  PublicKey, add_key, add_parsed, add_new, new_key, parse_public_key, fingerprint_sha256, same_key,
}
use core_lab.Users.Login.{hash_password}
use core_lab.Users.Tokens.{use_at, update_invite, has_hash, invite_has_hash}
use core_lab.Users.Activate.{
  Activation, activated, update_token, used_token, used_invite, add_given_key, key_for, redeem,
  register, consumed_at,
}

-- What redeeming has to do with the tables of tokens and invites.
abbrev pub Tables : Type 0
Tables = List SetupToken × List RegistrationInvite

abbrev pub tables : Db → Tables
tables db = (db.setup_tokens, db.invites)

and_then-tables :
    {A B : Type 0} (r : Outcome A × Db) (next : A → Db → Outcome B × Db)
    → ((a : A) (db : Db) → tables (next a db).1 ≡ tables db)
    → tables (and_then r next).1 ≡ tables r.1
and_then-tables (Outcome.failed e, db) next h = refl
and_then-tables (Outcome.done a, db) next h = h a db

add_key-tables :
    (outside : Outside) (public_key : Text) (label : Option Text) (owner : ℕ) (db : Db)
    → tables (add_key outside public_key label owner db).1 ≡ tables db
unfolding add_key
add_key-tables outside public_key label owner db = parsed (parse_public_key outside public_key)
  where
    added :
        (row : SshPublicKey) (r : Outcome (Option SshPublicKey))
        → tables (add_new row db r).1 ≡ tables db
    added row (Outcome.failed e) = refl
    added row (Outcome.done none) = refl
    added row (Outcome.done (some k)) = refl

    parsed :
        (r : Outcome PublicKey)
        → tables (add_parsed outside public_key label owner db r).1 ≡ tables db
    parsed (Outcome.failed e) = refl
    parsed (Outcome.done key) =
        added (new_key public_key label owner key (fingerprint_sha256 outside key.blob) db) (
          one_or_none
            (select (same_key owner (fingerprint_sha256 outside key.blob)) db.accounts.keys))

given_key-tables :
    (outside : Outside) (key : Option Text) (a : Activation) (n : ℕ) (db : Db)
    → tables (add_given_key outside key a n db).1 ≡ tables db
given_key-tables outside none a n db = refl
given_key-tables outside (some key) a n db =
    and_then-tables (add_key outside key a.ssh_key_label n db) (λ k db. (Outcome.done true, db))
      (λ k db. refl)
    ∙ add_key-tables outside key a.ssh_key_label n db

-- The tables after a success.
pub redeem-tables :
    (outside : Outside) (t : SetupToken) (a : Activation) (u v : User) (db : Db)
    → (redeem outside t a u db).0 ≡ Outcome.done v
    → tables (redeem outside t a u db).1
      ≡ (update_token t.id (use_at (now db)) db.setup_tokens, db.invites)
redeem-tables outside t a u v db h = ground (arith, h, finished)
  where
    new : User
    new = activated t.purpose a (hash_password outside db.draws a.new_password) u

    finished :
        tables
          (and_then
            (add_given_key outside (key_for t.purpose a) a u.id (used_token outside t a db))
            (λ added db. (Outcome.done new, audit (AuditEvent.token_activated u.id) db))).1
        ≡ tables (used_token outside t a db)
    finished =
        and_then-tables
          (add_given_key outside (key_for t.purpose a) a u.id (used_token outside t a db))
          (λ added db. (Outcome.done new, audit (AuditEvent.token_activated u.id) db))
          (λ added db. refl)
        ∙ given_key-tables outside (key_for t.purpose a) a u.id (used_token outside t a db)

pub register-tables :
    (outside : Outside) (i : RegistrationInvite) (a : Activation) (u v : User) (db : Db)
    → (register outside i a u db).0 ≡ Outcome.done v
    → tables (register outside i a u db).1
      ≡ (db.setup_tokens, update_invite i.id (consumed_at (now db) u.id) db.invites)
register-tables outside i a u v db h = ground (arith, h, finished)
  where
    end : Bool → Db → Outcome User × Db
    end added db = (
      Outcome.done u,
      audit (AuditEvent.invite_consumed u.id i.id)
          (audit (AuditEvent.registered u.id i.id u.role) db),
    )

    finished :
        tables
          (and_then (add_given_key outside a.ssh_key_public_key a u.id (used_invite i u db)) end).1
        ≡ tables (used_invite i u db)
    finished =
        and_then-tables (add_given_key outside a.ssh_key_public_key a u.id (used_invite i u db)) end
          (λ added db. refl)
        ∙ given_key-tables outside a.ssh_key_public_key a u.id (used_invite i u db)

pub select-update_token :
    (hash : Text) (n : ℕ) (at : Instant) (ts : List SetupToken)
    → select (has_hash hash) (update_token n (use_at at) ts)
      ≡ update_token n (use_at at) (select (has_hash hash) ts)
unfolding update_token
select-update_token hash n at [] = refl
select-update_token hash n at (t ∷ ts) = ground (arith, select-update_token hash n at ts)

pub select-update_invite :
    (hash : Text) (n : ℕ) (at : Instant) (user_id : ℕ) (is : List RegistrationInvite)
    → select (invite_has_hash hash) (update_invite n (consumed_at at user_id) is)
      ≡ update_invite n (consumed_at at user_id) (select (invite_has_hash hash) is)
unfolding update_invite
select-update_invite hash n at user_id [] = refl
select-update_invite hash n at user_id (i ∷ is) =
    ground (arith, select-update_invite hash n at user_id is)
