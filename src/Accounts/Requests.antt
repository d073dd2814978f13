-- ===== src/Accounts/Requests.antt =====
-- Requests for a link and their decisions (`account_link_request_service`). The agent is a function
-- that says what becomes of each push.
pub mod Approve
pub mod Retry
use core_lab.Prelude.{
  ℕ, ◌+◌, Bool, true, false, ◌&&◌, ◌||◌, not, Option, none, some, List, [], ◌∷◌, ◌++◌, length, ltb,
  leb, ◌==◌, is_empty, select, if◌then◌else◌,
}
use core_lab.Data.Row.{Text, Instant}
use core_lab.Accounts.Tables.{
  PhysicalAccount, SshPublicKey, AuthorizedKeyEntry, LinkRequest, RequestStatus, AuditEvent, Notice,
  PushCall, Db, AccountError, Attempt, active_of,
}

abbrev pub is_pending : RequestStatus → Bool
is_pending RequestStatus.pending = true
is_pending _ = false

abbrev pub is_approved : RequestStatus → Bool
is_approved RequestStatus.approved = true
is_approved _ = false

abbrev pub refuse : {A : Type 0} → AccountError → Db → Attempt A × Db
refuse e db = (Attempt.failed e, db)

-- `scalar_one_or_none() is not None`, before going on.
abbrev pub unless_found :
    {A B : Type 0} → AccountError → List A → Db → Attempt B × Db → Attempt B × Db
unless_found e [] db next = next
unless_found e (x ∷ []) db next = refuse e db
unless_found e (x ∷ y ∷ xs) db next = refuse AccountError.multiple_results_found db

abbrev pub pending_of : (requester_user_id physical_account_id : ℕ) → LinkRequest → Bool
pending_of requester_user_id physical_account_id r =
    r.requester_user_id == requester_user_id
    && (r.physical_account_id == physical_account_id && is_pending r.status)

abbrev pub new_request :
    Db → (requester_user_id physical_account_id : ℕ) → (request_note : Option Text) → LinkRequest
new_request db requester_user_id physical_account_id request_note = record {
  id = db.next_request_id;
  requester_user_id = requester_user_id;
  physical_account_id = physical_account_id;
  status = RequestStatus.pending;
  request_note = request_note;
  decided_by_user_id = none;
  decided_at = none;
  decision_note = none;
}

abbrev pub add_request : LinkRequest → Db → Attempt LinkRequest × Db
add_request r db = (
  Attempt.done r,
  record db {
    requests = db.requests ++ r ∷ [];
    next_request_id = db.next_request_id + 1;
    audits = db.audits ++ AuditEvent.request_created r.id r.physical_account_id ∷ [];
  },
)

abbrev pub is_lab : ℕ → Option ℕ → Bool
is_lab lab_id none = false
is_lab lab_id (some lab) = lab == lab_id

abbrev pub in_account : ℕ → Db → Option PhysicalAccount → Bool
in_account lab_id db none = false
in_account lab_id db (some pa) = pa.is_active && is_lab lab_id (db.server_labs pa.server_id)

unfoldable pub create_request :
    (requester_user_id physical_account_id : ℕ)
    → (request_note : Option Text) → (lab_id : ℕ) → Db
    → Attempt LinkRequest × Db
create_request requester_user_id physical_account_id request_note lab_id db =
    if in_account lab_id db (db.physical_accounts physical_account_id)
    then unless_found AccountError.already_linked
        (select (active_of requester_user_id physical_account_id) db.links) db
        (unless_found AccountError.duplicate_pending
          (select (pending_of requester_user_id physical_account_id) db.requests) db
          (add_request (new_request db requester_user_id physical_account_id request_note) db))
    else refuse AccountError.physical_account_not_found db

unfoldable pub find_request : ℕ → List LinkRequest → Option LinkRequest
find_request n [] = none
find_request n (r ∷ requests) = if r.id == n then some r else find_request n requests

abbrev pub found_in_lab :
    Bool → LinkRequest → PhysicalAccount → Attempt (LinkRequest × PhysicalAccount)
found_in_lab true r pa = Attempt.done (r, pa)
found_in_lab false r pa = Attempt.failed AccountError.request_not_found

abbrev pub request_of_account :
    ℕ → Db → LinkRequest → Option PhysicalAccount → Attempt (LinkRequest × PhysicalAccount)
request_of_account lab_id db r none = Attempt.failed AccountError.request_not_found
request_of_account lab_id db r (some pa) =
    found_in_lab (is_lab lab_id (db.server_labs pa.server_id)) r pa

abbrev pub request_on : ℕ → Db → Option LinkRequest → Attempt (LinkRequest × PhysicalAccount)
request_on lab_id db none = Attempt.failed AccountError.request_not_found
request_on lab_id db (some r) =
    request_of_account lab_id db r (db.physical_accounts r.physical_account_id)

-- `_load_request_in_lab`
unfoldable pub load_request_in_lab :
    (request_id lab_id : ℕ) → Db → Attempt (LinkRequest × PhysicalAccount)
load_request_in_lab request_id lab_id db =
    request_on lab_id db (find_request request_id db.requests)

abbrev pub with_request :
    Attempt (LinkRequest × PhysicalAccount)
    → Db
    → (LinkRequest → PhysicalAccount → Attempt LinkRequest × Db)
    → Attempt LinkRequest × Db
with_request (Attempt.failed e) db next = refuse e db
with_request (Attempt.done (r, pa)) db next = next r pa

unfoldable pub update_request :
    ℕ → (LinkRequest → LinkRequest) → List LinkRequest → List LinkRequest
update_request n f [] = []
update_request n f (r ∷ requests) = (if r.id == n then f r else r) ∷ update_request n f requests

abbrev pub decided :
    RequestStatus
    → (by : Option ℕ) → (decision_note : Option Text) → Instant
    → LinkRequest
    → LinkRequest
decided status by decision_note now r = record r {
  status = status;
  decided_by_user_id = by;
  decided_at = some now;
  decision_note = decision_note;
}

-- The new status of a request, its audit row and its notifications.
abbrev pub settle :
    LinkRequest
    → (LinkRequest → LinkRequest)
    → AuditEvent
    → List Notice
    → Db
    → Attempt LinkRequest × Db
settle r f event notices db = (
  Attempt.done (f r),
  record db {
    requests = update_request r.id f db.requests;
    audits = db.audits ++ event ∷ [];
    notices = db.notices ++ notices;
  },
)

unfoldable pub deny_request :
    (request_id : ℕ)
    → (decision_note : Option Text) → (admin_user_id lab_id : ℕ) → Db
    → Attempt LinkRequest × Db
deny_request request_id decision_note admin_user_id lab_id db =
    with_request (load_request_in_lab request_id lab_id db) db (λ r pa.
      if is_pending r.status
      then settle r (decided RequestStatus.denied (some admin_user_id) decision_note db.clock)
          (AuditEvent.request_denied r.id pa.id) (Notice.link_denied r.requester_user_id r.id ∷ [])
          db
      else refuse AccountError.invalid_status_transition db)

-- A request that its requester takes back has no one who decided it, and keeps its note.
abbrev pub taken_back : Instant → LinkRequest → LinkRequest
taken_back now r = record r { status = RequestStatus.withdrawn; decided_at = some now }

unfoldable pub withdraw_request :
    (request_id requester_user_id lab_id : ℕ) → Db → Attempt LinkRequest × Db
withdraw_request request_id requester_user_id lab_id db =
    with_request (load_request_in_lab request_id lab_id db) db (λ r pa.
      if not (r.requester_user_id == requester_user_id)
      then refuse AccountError.not_requester db
      else if is_pending r.status
      then settle r (taken_back db.clock) (AuditEvent.request_withdrawn r.id pa.id) [] db
      else refuse AccountError.invalid_status_transition db)
