-- ===== src/Accounts/Requests/Approve.antt =====
-- Approving a request, which pushes the requester's key, and pushing it again.
use core_lab.Prelude.{
  ℕ, ◌+◌, Bool, true, false, ◌&&◌, Option, none, some, List, [], ◌∷◌, ◌++◌, length, ltb, leb, ◌==◌,
  every, select, if◌then◌else◌,
}
use core_lab.Data.Row.{Text}
use core_lab.Accounts.Tables.{
  PhysicalAccount, SshPublicKey, AuthorizedKeyEntry, LinkRequest, RequestStatus, AuditEvent, Notice,
  PushCall, Reply, Db, AccountError, Attempt,
}
use core_lab.Accounts.Requests.{
  is_pending, refuse, load_request_in_lab, with_request, decided, settle,
}

abbrev later : SshPublicKey → Option SshPublicKey → Option SshPublicKey
later k none = some k
later k (some m) = if ltb k.id m.id then some m else some k

-- `_latest_active_key_for_user`: the one with the largest primary key.
unfoldable pub latest_active_key : ℕ → List SshPublicKey → Option SshPublicKey
latest_active_key user_id [] = none
latest_active_key user_id (k ∷ keys) =
    let rest = latest_active_key user_id keys in
    if k.user_id == user_id && k.is_active then later k rest else rest

abbrev pub is_entry : (physical_account_id ssh_public_key_id : ℕ) → AuthorizedKeyEntry → Bool
is_entry physical_account_id ssh_public_key_id e =
    e.physical_account_id == physical_account_id && e.ssh_public_key_id == ssh_public_key_id

-- uq_ake_pa_key
abbrev pub entries_unique : List AuthorizedKeyEntry → Bool
entries_unique entries =
    every
      (λ e. leb (length (select (is_entry e.physical_account_id e.ssh_public_key_id) entries)) 1)
      entries

-- `session.flush()` with the entries written
abbrev pub flush_entries : {A : Type 0} → Db → Attempt A × Db → Attempt A × Db
flush_entries db next =
    if entries_unique db.entries then next else refuse AccountError.integrity_error db

abbrev pub push_call : LinkRequest → PhysicalAccount → SshPublicKey → (retry : Bool) → PushCall
push_call r pa k retry = record {
  server_id = pa.server_id;
  linux_username = pa.linux_username;
  public_key = k.public_key;
  requester_user_id = r.requester_user_id;
  request_id = r.id;
  retry = retry;
}

abbrev pub new_entry :
    Db → LinkRequest → PhysicalAccount → SshPublicKey → (admin_user_id : ℕ) → AuthorizedKeyEntry
new_entry db r pa k admin_user_id = record {
  id = db.next_entry_id;
  physical_account_id = pa.id;
  ssh_public_key_id = k.id;
  pushed_by_user_id = admin_user_id;
  pushed_for_user_id = r.requester_user_id;
  pushed_at = db.clock;
  is_active = true;
  removed_at = none;
  removed_by_user_id = none;
}

abbrev pub add_entry : AuthorizedKeyEntry → Db → Db
add_entry e db = record db { entries = db.entries ++ e ∷ []; next_entry_id = db.next_entry_id + 1 }

abbrev pub sent : PushCall → Db → Db
sent call db = record db { push_calls = db.push_calls ++ call ∷ [] }

abbrev pub settle_approved :
    LinkRequest
    → PhysicalAccount
    → SshPublicKey
    → (decision_note : Option Text) → (admin_user_id : ℕ) → (push_ok : Bool) → Db
    → Attempt LinkRequest × Db
settle_approved r pa k decision_note admin_user_id push_ok db =
    settle r (decided RequestStatus.approved (some admin_user_id) decision_note db.clock)
      (AuditEvent.request_approved r.id pa.id k.id push_ok)
      (Notice.link_prepared r.requester_user_id r.id push_ok ∷ []) db

-- Once the push was called. An exception that is not handled undoes the approval.
abbrev pub approve_replied :
    Reply
    → LinkRequest
    → PhysicalAccount
    → SshPublicKey
    → (decision_note : Option Text) → (admin_user_id : ℕ) → Db
    → Attempt LinkRequest × Db
approve_replied Reply.answered r pa k decision_note admin_user_id db =
    flush_entries (add_entry (new_entry db r pa k admin_user_id) db) (
      settle_approved r pa k decision_note admin_user_id true
        (add_entry (new_entry db r pa k admin_user_id) db))
approve_replied Reply.unreachable r pa k decision_note admin_user_id db =
    settle_approved r pa k decision_note admin_user_id false db
approve_replied Reply.unexpected r pa k decision_note admin_user_id db =
    refuse AccountError.agent_error db

abbrev pub approve_with :
    (PushCall → Reply)
    → LinkRequest
    → PhysicalAccount
    → (decision_note : Option Text) → (admin_user_id : ℕ) → Db
    → Option SshPublicKey
    → Attempt LinkRequest × Db
approve_with agent r pa decision_note admin_user_id db none =
    refuse AccountError.no_active_ssh_key db
approve_with agent r pa decision_note admin_user_id db (some k) =
    approve_replied (agent (push_call r pa k false)) r pa k decision_note admin_user_id
      (sent (push_call r pa k false) db)

unfoldable pub approve_request :
    (PushCall → Reply)
    → (request_id : ℕ) → (decision_note : Option Text) → (admin_user_id lab_id : ℕ) → Db
    → Attempt LinkRequest × Db
approve_request agent request_id decision_note admin_user_id lab_id db =
    with_request (load_request_in_lab request_id lab_id db) db (λ r pa.
      if is_pending r.status
      then approve_with agent r pa decision_note admin_user_id db
          (latest_active_key r.requester_user_id db.keys)
      else refuse AccountError.invalid_status_transition db)
