-- ===== src/Accounts/Revoke.antt =====
-- Revoking a link with the keys that were pushed for it. The agent is a function that says what
-- becomes of each call.
pub mod Ends
use core_lab.Prelude.{
  ℕ, Bool, true, false, ◌&&◌, Option, none, some, List, [], ◌∷◌, ◌++◌, ◌==◌, select, if◌then◌else◌,
}
use core_lab.Data.Row.{Instant}
use core_lab.Accounts.Tables.{
  RevokeReason, Link, PhysicalAccount, SshPublicKey, AuthorizedKeyEntry, KeyOutcome, AuditEvent,
  RevokeCall, Reply, Db, AccountError, Attempt, flush, update_link,
}
use core_lab.Accounts.Links.{deactivate}

unfoldable pub find_link : ℕ → List Link → Option Link
find_link n [] = none
find_link n (l ∷ links) = if l.id == n then some l else find_link n links

abbrev in_lab : ℕ → Link → Option ℕ → Attempt Link
in_lab lab_id l none = Attempt.failed AccountError.account_link_error
in_lab lab_id l (some lab) =
    if lab == lab_id then Attempt.done l else Attempt.failed AccountError.account_link_error

abbrev on_account : Db → ℕ → Link → Option PhysicalAccount → Attempt Link
on_account db lab_id l none = Attempt.failed AccountError.account_link_error
on_account db lab_id l (some pa) = in_lab lab_id l (db.server_labs pa.server_id)

abbrev on_link : Db → ℕ → Option Link → Attempt Link
on_link db lab_id none = Attempt.failed AccountError.account_link_error
on_link db lab_id (some l) = on_account db lab_id l (db.physical_accounts l.physical_account_id)

unfoldable pub load_link_in_lab : (link_id lab_id : ℕ) → Db → Attempt Link
load_link_in_lab link_id lab_id db = on_link db lab_id (find_link link_id db.links)

unfoldable pub find_key : ℕ → List SshPublicKey → Option SshPublicKey
find_key n [] = none
find_key n (k ∷ keys) = if k.id == n then some k else find_key n keys

-- An entry that is still active for the pair.
abbrev pub pushed_for : (physical_account_id user_id : ℕ) → AuthorizedKeyEntry → Bool
pushed_for physical_account_id user_id e =
    e.physical_account_id == physical_account_id && (e.pushed_for_user_id == user_id && e.is_active)

unfoldable pub remove_entry :
    (actor_user_id : ℕ)
    → Instant
    → (entry_id : ℕ) → List AuthorizedKeyEntry
    → List AuthorizedKeyEntry
remove_entry actor_user_id now entry_id [] = []
remove_entry actor_user_id now entry_id (e ∷ entries) =
    (if e.id == entry_id
      then record e {
        is_active = false;
        removed_at = some now;
        removed_by_user_id = some actor_user_id;
      }
      else e)
    ∷ remove_entry actor_user_id now entry_id entries

abbrev pub call_of : PhysicalAccount → SshPublicKey → RevokeCall
call_of pa key = record {
  server_id = pa.server_id;
  linux_username = pa.linux_username;
  fingerprint = key.fingerprint_sha256;
}

-- One key, once its call is made: its entry is removed, unless the call raises what is not handled.
abbrev pub replied :
    Reply
    → (actor_user_id : ℕ) → AuthorizedKeyEntry
    → SshPublicKey
    → List KeyOutcome × Db
    → Option (List KeyOutcome) × Db
replied Reply.unexpected actor_user_id entry key (outcomes, db) = (none, db)
replied Reply.answered actor_user_id entry key (outcomes, db) = (
  some (outcomes ++ record { entry_id = entry.id; key_id = key.id; ok = true } ∷ []),
  record db { entries = remove_entry actor_user_id db.clock entry.id db.entries },
)
replied Reply.unreachable actor_user_id entry key (outcomes, db) = (
  some (outcomes ++ record { entry_id = entry.id; key_id = key.id; ok = false } ∷ []),
  record db { entries = remove_entry actor_user_id db.clock entry.id db.entries },
)

abbrev pub called : RevokeCall → Db → Db
called call db = record db { calls = db.calls ++ call ∷ [] }

abbrev pub revoke_key_of :
    (RevokeCall → Reply)
    → PhysicalAccount
    → (actor_user_id : ℕ) → AuthorizedKeyEntry
    → Option SshPublicKey
    → List KeyOutcome × Db
    → Option (List KeyOutcome) × Db
revoke_key_of agent pa actor_user_id entry none (outcomes, db) = (some outcomes, db)
revoke_key_of agent pa actor_user_id entry (some key) (outcomes, db) =
    replied (agent (call_of pa key)) actor_user_id entry key (outcomes, called (call_of pa key) db)

-- The next key, unless an exception left the loop.
abbrev pub then_key :
    Option (List KeyOutcome) × Db
    → (List KeyOutcome × Db → Option (List KeyOutcome) × Db)
    → Option (List KeyOutcome) × Db
then_key (none, db) next = (none, db)
then_key (some outcomes, db) next = next (outcomes, db)

-- The loop over the entries.
unfoldable pub revoke_keys :
    (RevokeCall → Reply)
    → PhysicalAccount
    → (actor_user_id : ℕ) → List AuthorizedKeyEntry
    → List KeyOutcome × Db
    → Option (List KeyOutcome) × Db
revoke_keys agent pa actor_user_id [] acc = (some acc.0, acc.1)
revoke_keys agent pa actor_user_id (entry ∷ entries) acc =
    then_key
      (revoke_key_of agent pa actor_user_id entry (find_key entry.ssh_public_key_id acc.1.keys) acc)
      (λ acc. revoke_keys agent pa actor_user_id entries acc)

abbrev pub revoke_keys_on :
    (RevokeCall → Reply)
    → (user_id actor_user_id : ℕ) → Option PhysicalAccount
    → Db
    → Option (List KeyOutcome) × Db
revoke_keys_on agent user_id actor_user_id none db = (some [], db)
revoke_keys_on agent user_id actor_user_id (some pa) db =
    revoke_keys agent pa actor_user_id (select (pushed_for pa.id user_id) db.entries) ([], db)

abbrev pub revoke_keys_if :
    (revoke_key : Bool)
    → (RevokeCall → Reply)
    → (user_id actor_user_id : ℕ) → Option PhysicalAccount
    → Db
    → Option (List KeyOutcome) × Db
revoke_keys_if false agent user_id actor_user_id pa db = (some [], db)
revoke_keys_if true agent user_id actor_user_id pa db =
    revoke_keys_on agent user_id actor_user_id pa db

-- After the keys. An exception rolls the session back; the calls were made.
abbrev pub end_revoke :
    Link
    → (actor_user_id : ℕ) → RevokeReason
    → (revoke_key : Bool) → Db
    → Option (List KeyOutcome) × Db
    → Attempt Link × Db
end_revoke l actor_user_id reason revoke_key db (none, after) =
    (Attempt.failed AccountError.agent_error, record db { calls = after.calls })
end_revoke l actor_user_id reason revoke_key db (some outcomes, after) = (
  Attempt.done (deactivate actor_user_id reason db.clock l),
  record after {
    audits =
        after.audits
        ++ AuditEvent.revoked l.id l.user_id l.physical_account_id reason revoke_key outcomes ∷ [];
  },
)

abbrev pub revoked_row : Link → (actor_user_id : ℕ) → RevokeReason → Db → Db
revoked_row l actor_user_id reason db = record db {
  links = update_link l.id (deactivate actor_user_id reason db.clock) db.links;
}

unfoldable pub revoke_link :
    (RevokeCall → Reply)
    → Link
    → (actor_user_id : ℕ) → RevokeReason
    → (revoke_key : Bool) → Db
    → Attempt Link × Db
revoke_link agent l actor_user_id reason revoke_key db =
    if l.is_active
    then flush (revoked_row l actor_user_id reason db) (
        end_revoke l actor_user_id reason revoke_key db (
          revoke_keys_if revoke_key agent l.user_id actor_user_id
            (db.physical_accounts l.physical_account_id) (revoked_row l actor_user_id reason db)))
    else (Attempt.failed AccountError.account_link_error, db)
