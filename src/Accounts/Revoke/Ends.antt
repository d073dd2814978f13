-- ===== src/Accounts/Revoke/Ends.antt =====
-- The loop over the keys of a link that is revoked: it leaves the links as they are, and ends where
-- the replies of the agent are handled.
use core_lab.Prelude.{
  ℕ, ◌≡◌, refl, ◌∙◌, Bool, true, false, Option, none, some, List, [], ◌∷◌, select,
}
use core_lab.Accounts.Tables.{
  Link, PhysicalAccount, SshPublicKey, AuthorizedKeyEntry, KeyOutcome, Db, RevokeCall, Reply,
  is_unexpected,
}
use core_lab.Accounts.Revoke.{
  find_key, revoke_key_of, revoke_keys, revoke_keys_if, pushed_for, replied, called, call_of,
  then_key,
}

-- The keys are revoked beside the links.
replied-links :
    (reply : Reply) (actor : ℕ) (e : AuthorizedKeyEntry) (key : SshPublicKey)
    (acc : List KeyOutcome × Db)
    → (replied reply actor e key acc).1.links ≡ acc.1.links
replied-links Reply.answered actor e key acc = refl
replied-links Reply.unreachable actor e key acc = refl
replied-links Reply.unexpected actor e key acc = refl

revoke_key_of-links :
    (agent : RevokeCall → Reply) (pa : PhysicalAccount) (actor : ℕ) (e : AuthorizedKeyEntry)
    (key : Option SshPublicKey) (acc : List KeyOutcome × Db)
    → (revoke_key_of agent pa actor e key acc).1.links ≡ acc.1.links
revoke_key_of-links agent pa actor e none acc = refl
revoke_key_of-links agent pa actor e (some key) acc =
    replied-links (agent (call_of pa key)) actor e key (acc.0, called (call_of pa key) acc.1)

then_key-links :
    (r : Option (List KeyOutcome) × Db)
    (next : List KeyOutcome × Db → Option (List KeyOutcome) × Db) (links : List Link)
    → r.1.links ≡ links
    → ((acc : List KeyOutcome × Db) → (next acc).1.links ≡ acc.1.links)
    → (then_key r next).1.links ≡ links
then_key-links (none, db) next links h k = h
then_key-links (some outcomes, db) next links h k = k (outcomes, db) ∙ h

revoke_keys-links :
    (agent : RevokeCall → Reply) (pa : PhysicalAccount) (actor : ℕ) (es : List AuthorizedKeyEntry)
    (acc : List KeyOutcome × Db)
    → (revoke_keys agent pa actor es acc).1.links ≡ acc.1.links
unfolding revoke_keys
revoke_keys-links agent pa actor [] acc = refl
revoke_keys-links agent pa actor (e ∷ es) acc =
    then_key-links (revoke_key_of agent pa actor e (find_key e.ssh_public_key_id acc.1.keys) acc)
      (λ acc. revoke_keys agent pa actor es acc) acc.1.links
      (revoke_key_of-links agent pa actor e (find_key e.ssh_public_key_id acc.1.keys) acc)
      (λ acc. revoke_keys-links agent pa actor es acc)

pub revoke_keys_if-links :
    (keys : Bool) (agent : RevokeCall → Reply) (u actor : ℕ) (pa : Option PhysicalAccount) (db : Db)
    → (revoke_keys_if keys agent u actor pa db).1.links ≡ db.links
revoke_keys_if-links false agent u actor pa db = refl
revoke_keys_if-links true agent u actor none db = refl
revoke_keys_if-links true agent u actor (some pa) db =
    revoke_keys-links agent pa actor (select (pushed_for pa.id u) db.entries) ([], db)

-- The loop ends where no call raises an exception that is not handled.
abbrev pub Ends : Option (List KeyOutcome) × Db → Type 0
Ends r = (outcomes : List KeyOutcome) × (r.0 ≡ some outcomes)

replied-Ends :
    (reply : Reply) (actor : ℕ) (e : AuthorizedKeyEntry) (key : SshPublicKey)
    (acc : List KeyOutcome × Db)
    → is_unexpected reply ≡ false
    → Ends (replied reply actor e key acc)
replied-Ends Reply.answered actor e key acc h = (_, refl)
replied-Ends Reply.unreachable actor e key acc h = (_, refl)
replied-Ends Reply.unexpected actor e key acc h = cc

then_key-Ends :
    (r : Option (List KeyOutcome) × Db)
    (next : List KeyOutcome × Db → Option (List KeyOutcome) × Db)
    → Ends r
    → ((acc : List KeyOutcome × Db) → Ends (next acc))
    → Ends (then_key r next)
then_key-Ends (none, db) next h k = cc (h.1)
then_key-Ends (some outcomes, db) next h k = k (outcomes, db)

module _ (agent : RevokeCall → Reply) (pa : PhysicalAccount) (actor : ℕ)
    (handled : (c : RevokeCall) → is_unexpected (agent c) ≡ false) where
  revoke_key_of-Ends :
      (e : AuthorizedKeyEntry) (key : Option SshPublicKey) (acc : List KeyOutcome × Db)
      → Ends (revoke_key_of agent pa actor e key acc)
  revoke_key_of-Ends e none acc = (_, refl)
  revoke_key_of-Ends e (some key) acc =
      replied-Ends (agent (call_of pa key)) actor e key (acc.0, called (call_of pa key) acc.1)
        (handled (call_of pa key))

  pub revoke_keys-Ends :
      (es : List AuthorizedKeyEntry) (acc : List KeyOutcome × Db)
      → Ends (revoke_keys agent pa actor es acc)
  unfolding revoke_keys
  revoke_keys-Ends [] acc = (_, refl)
  revoke_keys-Ends (e ∷ es) acc =
      then_key-Ends (revoke_key_of agent pa actor e (find_key e.ssh_public_key_id acc.1.keys) acc)
        (λ acc. revoke_keys agent pa actor es acc)
        (revoke_key_of-Ends e (find_key e.ssh_public_key_id acc.1.keys) acc)
        (λ acc. revoke_keys-Ends es acc)

pub revoke_keys_if-Ends :
    (keys : Bool) (agent : RevokeCall → Reply) (u actor : ℕ) (pa : Option PhysicalAccount) (db : Db)
    → ((c : RevokeCall) → is_unexpected (agent c) ≡ false)
    → Ends (revoke_keys_if keys agent u actor pa db)
revoke_keys_if-Ends false agent u actor pa db handled = (_, refl)
revoke_keys_if-Ends true agent u actor none db handled = (_, refl)
revoke_keys_if-Ends true agent u actor (some pa) db handled =
    revoke_keys-Ends agent pa actor handled (select (pushed_for pa.id u) db.entries) ([], db)
