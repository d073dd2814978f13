-- ===== src/Accounts/Tables.antt =====
-- The tables of account links. The calls of the agent are recorded; what it answers is an argument.
use core_lab.Prelude.{
  ℕ, Bool, true, false, ◌&&◌, ◌||◌, not, Option, List, [], ◌∷◌, length, leb, ◌==◌, select, every,
  if◌then◌else◌,
}
use core_lab.Data.Row.{Text, Instant, LinkSource}

-- ck_link_revoke_reason
pub data RevokeReason : Type 0 where
  self admin_force user_disabled pa_disabled upgraded_to_verified : RevokeReason

pub data ProofEvidence : Type 0 where
  pam : (verified_at : Instant) → ProofEvidence
  ssh_sign :
      (challenge_id signer_fingerprint : Text) (verified_at : Instant)
      → (upgraded_from_link_id : Option ℕ) → ProofEvidence
  declared : (declared_by : ℕ) (declared_at : Instant) (reason : Text) → ProofEvidence

-- A row of `account_link`.
pub record Link : Type 0 where
  pub id : ℕ
  pub user_id : ℕ
  pub physical_account_id : ℕ
  pub source : LinkSource
  pub proof_evidence : ProofEvidence
  pub established_by_user_id : ℕ
  pub is_active : Bool
  pub revoked_at : Option Instant
  pub revoked_by_user_id : Option ℕ
  pub revoke_reason : Option RevokeReason

pub record PhysicalAccount : Type 0 where
  pub id : ℕ
  pub server_id : ℕ
  pub linux_username : Text
  pub is_active : Bool

pub record SshPublicKey : Type 0 where
  pub id : ℕ
  pub user_id : ℕ
  pub public_key : Text
  pub fingerprint_sha256 : Text
  pub key_type : Text
  pub comment : Option Text
  pub is_active : Bool
  pub disabled_at : Option Instant

pub record AuthorizedKeyEntry : Type 0 where
  pub id : ℕ
  pub physical_account_id : ℕ
  pub ssh_public_key_id : ℕ
  pub pushed_by_user_id : ℕ
  pub pushed_for_user_id : ℕ
  pub pushed_at : Instant
  pub is_active : Bool
  pub removed_at : Option Instant
  pub removed_by_user_id : Option ℕ

pub data RequestStatus : Type 0 where
  pending approved denied withdrawn : RequestStatus

-- A row of `account_link_request`.
pub record LinkRequest : Type 0 where
  pub id : ℕ
  pub requester_user_id : ℕ
  pub physical_account_id : ℕ
  pub status : RequestStatus
  pub request_note : Option Text
  pub decided_by_user_id : Option ℕ
  pub decided_at : Option Instant
  pub decision_note : Option Text

-- What became of one key in a revocation; `ok` is whether the agent answered.
pub record KeyOutcome : Type 0 where
  pub entry_id : ℕ
  pub key_id : ℕ
  pub ok : Bool

pub data AuditEvent : Type 0 where
  established :
      (link_id physical_account_id : ℕ) (source : LinkSource) (challenge_id : Option Text)
      → AuditEvent
  admin_declared : (link_id owner_user_id physical_account_id : ℕ) (reason : Text) → AuditEvent
  upgraded : (old_link_id new_link_id physical_account_id : ℕ) (challenge_id : Text) → AuditEvent
  revoked :
      (link_id user_id physical_account_id : ℕ) (reason : RevokeReason) (revoke_key : Bool)
      → List KeyOutcome
      → AuditEvent
  -- of a request: its creation and decisions, and the retries with whether the agent answered
  request_created request_denied request_withdrawn :
      (request_id physical_account_id : ℕ) → AuditEvent
  request_approved :
      (request_id physical_account_id ssh_public_key_id : ℕ) (push_ok : Bool) → AuditEvent
  key_push_skipped : (request_id physical_account_id ssh_public_key_id : ℕ) → AuditEvent
  key_push_retried :
      (request_id physical_account_id ssh_public_key_id : ℕ) (push_ok : Bool) → AuditEvent

-- `backend.authorized_key.push`; the label says which request it is for, and whether again.
pub record PushCall : Type 0 where
  pub server_id : ℕ
  pub linux_username : Text
  pub public_key : Text
  pub requester_user_id : ℕ
  pub request_id : ℕ
  pub retry : Bool

-- A call of `create_notification`.
pub data Notice : Type 0 where
  link_prepared : (recipient_user_id request_id : ℕ) (push_ok : Bool) → Notice
  link_denied : (recipient_user_id request_id : ℕ) → Notice

-- `backend.authorized_key.revoke`
pub record RevokeCall : Type 0 where
  pub server_id : ℕ
  pub linux_username : Text
  pub fingerprint : Text

-- What becomes of a call of `request_response`: a reply, `AgentOfflineError` or
-- `AgentRpcTimeoutError`, or any other exception (a reply of the wrong type, a failing send).
pub data Reply : Type 0 where
  answered unreachable unexpected : Reply

abbrev pub is_unexpected : Reply → Bool
is_unexpected Reply.unexpected = true
is_unexpected _ = false

-- The session. `server_labs` gives the lab of a server, if there is one.
pub record Db : Type 0 where
  pub links : List Link
  pub next_link_id : ℕ
  pub physical_accounts : ℕ → Option PhysicalAccount
  pub server_labs : ℕ → Option ℕ
  pub keys : List SshPublicKey
  pub entries : List AuthorizedKeyEntry
  pub next_entry_id : ℕ
  pub requests : List LinkRequest
  pub next_request_id : ℕ
  pub clock : Instant
  pub audits : List AuditEvent
  pub calls : List RevokeCall
  pub push_calls : List PushCall
  pub notices : List Notice

pub data AccountError : Type 0 where
  account_link_error link_already_active admin_declared_cannot_act_as : AccountError
  physical_account_not_found already_linked duplicate_pending request_not_found : AccountError
  invalid_status_transition no_active_ssh_key not_requester : AccountError
  -- more rows than `scalar_one_or_none` takes, and a constraint that the database refuses
  multiple_results_found integrity_error : AccountError
  -- an exception of the agent's call that is not handled
  agent_error : AccountError

pub data Attempt (A : Type 0) : Type 0 where
  done : A → Attempt A
  failed : AccountError → Attempt A

-- An active link of the user to the account.
abbrev pub active_of : (user_id physical_account_id : ℕ) → Link → Bool
active_of user_id physical_account_id l =
    l.user_id == user_id && (l.physical_account_id == physical_account_id && l.is_active)

-- uq_link_user_pa_active
abbrev pub is_unique : List Link → Bool
is_unique links =
    every
      (λ l.
        not l.is_active
        || leb (length (select (active_of l.user_id l.physical_account_id) links)) 1)
      links

-- `session.flush()`
abbrev pub flush : {A : Type 0} → Db → Attempt A × Db → Attempt A × Db
flush db next =
    if is_unique db.links then next else (Attempt.failed AccountError.integrity_error, db)

-- Assignment to attributes of the link with primary key `n`.
abbrev pub update_link : ℕ → (Link → Link) → List Link → List Link
update_link n f [] = []
update_link n f (l ∷ links) = (if l.id == n then f l else l) ∷ update_link n f links
