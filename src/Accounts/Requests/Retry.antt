-- ===== src/Accounts/Requests/Retry.antt =====
-- `retry_push_for_request`. Its outcome is whether the key is known to be pushed.
use core_lab.Prelude.{
  ℕ, Bool, true, false, Option, none, some, List, [], ◌∷◌, ◌++◌, ◌==◌, select, if◌then◌else◌,
}
use core_lab.Data.Row.{Instant}
use core_lab.Accounts.Tables.{
  PhysicalAccount, SshPublicKey, AuthorizedKeyEntry, LinkRequest, AuditEvent, Notice, PushCall,
  Reply, Db, AccountError, Attempt,
}
use core_lab.Accounts.Requests.{is_approved, refuse, load_request_in_lab}
use core_lab.Accounts.Requests.Approve.{
  latest_active_key, is_entry, push_call, new_entry, add_entry, sent,
}

-- `_find_key_entry`, on the entries of an account and a key
abbrev pub first_entry : List AuthorizedKeyEntry → Attempt (Option AuthorizedKeyEntry)
first_entry [] = Attempt.done none
first_entry (e ∷ []) = Attempt.done (some e)
first_entry (e ∷ f ∷ entries) = Attempt.failed AccountError.multiple_results_found

unfoldable pub find_key_entry :
    (physical_account_id ssh_public_key_id : ℕ) → Db → Attempt (Option AuthorizedKeyEntry)
find_key_entry physical_account_id ssh_public_key_id db =
    first_entry (select (is_entry physical_account_id ssh_public_key_id) db.entries)

-- An entry that is active again, for the requester.
abbrev pub renewed :
    LinkRequest → (admin_user_id : ℕ) → Instant → AuthorizedKeyEntry → AuthorizedKeyEntry
renewed r admin_user_id now e = record e {
  pushed_by_user_id = admin_user_id;
  pushed_for_user_id = r.requester_user_id;
  pushed_at = now;
  is_active = true;
  removed_at = none;
  removed_by_user_id = none;
}

unfoldable pub update_entry :
    ℕ
    → (AuthorizedKeyEntry → AuthorizedKeyEntry)
    → List AuthorizedKeyEntry
    → List AuthorizedKeyEntry
update_entry n f [] = []
update_entry n f (e ∷ entries) = (if e.id == n then f e else e) ∷ update_entry n f entries

abbrev pub write_entry :
    LinkRequest
    → PhysicalAccount
    → SshPublicKey
    → (admin_user_id : ℕ) → Option AuthorizedKeyEntry
    → Db
    → Db
write_entry r pa k admin_user_id none db = add_entry (new_entry db r pa k admin_user_id) db
write_entry r pa k admin_user_id (some e) db = record db {
  entries = update_entry e.id (renewed r admin_user_id db.clock) db.entries;
}

abbrev pub retried :
    LinkRequest
    → PhysicalAccount
    → SshPublicKey
    → (push_ok : Bool) → Db
    → Attempt (LinkRequest × Bool) × Db
retried r pa k push_ok db = (
  Attempt.done (r, push_ok),
  record db {
    audits = db.audits ++ AuditEvent.key_push_retried r.id pa.id k.id push_ok ∷ [];
    notices =
        db.notices
        ++ (if push_ok then Notice.link_prepared r.requester_user_id r.id true ∷ [] else []);
  },
)

-- Once the push was called. An exception that is not handled undoes the retry.
abbrev pub retry_replied :
    Reply
    → LinkRequest
    → PhysicalAccount
    → SshPublicKey
    → (admin_user_id : ℕ) → Option AuthorizedKeyEntry
    → Db
    → Attempt (LinkRequest × Bool) × Db
retry_replied Reply.answered r pa k admin_user_id e db =
    retried r pa k true (write_entry r pa k admin_user_id e db)
retry_replied Reply.unreachable r pa k admin_user_id e db = retried r pa k false db
retry_replied Reply.unexpected r pa k admin_user_id e db = refuse AccountError.agent_error db

abbrev pub push_again :
    (PushCall → Reply)
    → LinkRequest
    → PhysicalAccount
    → SshPublicKey
    → (admin_user_id : ℕ) → Option AuthorizedKeyEntry
    → Db
    → Attempt (LinkRequest × Bool) × Db
push_again agent r pa k admin_user_id e db =
    retry_replied (agent (push_call r pa k true)) r pa k admin_user_id e
      (sent (push_call r pa k true) db)

abbrev pub skipped :
    LinkRequest → PhysicalAccount → SshPublicKey → Db → Attempt (LinkRequest × Bool) × Db
skipped r pa k db = (
  Attempt.done (r, true),
  record db { audits = db.audits ++ AuditEvent.key_push_skipped r.id pa.id k.id ∷ [] },
)

abbrev pub retry_on :
    (PushCall → Reply)
    → LinkRequest
    → PhysicalAccount
    → SshPublicKey
    → (admin_user_id : ℕ) → Db
    → Attempt (Option AuthorizedKeyEntry)
    → Attempt (LinkRequest × Bool) × Db
retry_on agent r pa k admin_user_id db (Attempt.failed e) = refuse e db
retry_on agent r pa k admin_user_id db (Attempt.done none) =
    push_again agent r pa k admin_user_id none db
retry_on agent r pa k admin_user_id db (Attempt.done (some e)) =
    if e.is_active then skipped r pa k db else push_again agent r pa k admin_user_id (some e) db

abbrev pub retry_key :
    (PushCall → Reply)
    → LinkRequest
    → PhysicalAccount
    → (admin_user_id : ℕ) → Db
    → Option SshPublicKey
    → Attempt (LinkRequest × Bool) × Db
retry_key agent r pa admin_user_id db none = refuse AccountError.no_active_ssh_key db
retry_key agent r pa admin_user_id db (some k) =
    retry_on agent r pa k admin_user_id db (find_key_entry pa.id k.id db)

abbrev pub retry_request :
    (PushCall → Reply)
    → (admin_user_id : ℕ) → Db
    → Attempt (LinkRequest × PhysicalAccount)
    → Attempt (LinkRequest × Bool) × Db
retry_request agent admin_user_id db (Attempt.failed e) = refuse e db
retry_request agent admin_user_id db (Attempt.done (r, pa)) =
    if is_approved r.status
    then retry_key agent r pa admin_user_id db (latest_active_key r.requester_user_id db.keys)
    else refuse AccountError.invalid_status_transition db

unfoldable pub retry_push_for_request :
    (PushCall → Reply)
    → (request_id admin_user_id lab_id : ℕ) → Db
    → Attempt (LinkRequest × Bool) × Db
retry_push_for_request agent request_id admin_user_id lab_id db =
    retry_request agent admin_user_id db (load_request_in_lab request_id lab_id db)
