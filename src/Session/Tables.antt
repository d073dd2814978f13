-- ===== src/Session/Tables.antt =====
-- What a session sees and writes: the reservation table, the tables that it only reads, and the
-- audit log, the notifications and the pushed frames, each oldest first.
use core_lab.Prelude.{ℕ, Bool, Option, none, some, List, [], ◌∷◌, ◌==◌, if◌then◌else◌}
use core_lab.Data.Status.{Status, ScriptStatus}
use core_lab.Data.Row.{Text, Instant, ℤ, Reservation, AccountLink, Server, Gpu}

pub data Trigger : Type 0 where
  scheduler_start_at scheduler_end_at scheduler_watchdog_dispatch_giveup : Trigger
  agent_script_started agent_script_finished : Trigger

pub data Field : Type 0 where
  start_at end_at script script_scheduled_start_at script_max_runtime_seconds : Field

-- The action of an audit row with its payload.
pub data AuditEvent : Type 0 where
  created :
      (gpu_id : Option ℕ) (start_at end_at : Instant) (account_link_id group_id : ℕ)
      → (gpu_memory_mb gpu_compute_share_pct : Option ℕ) (has_script : Bool) → AuditEvent
  cancelled : (owner_user_id : ℕ) (reason : Option Text) (by_admin : Bool) → AuditEvent
  group_cancelled :
      (group_id count : ℕ) (reason : Option Text) (owner_user_id : ℕ)
      → (by_admin : Bool) → AuditEvent
  modified : (fields_changed : List Field) → AuditEvent
  transitioned :
      (source target : Status) (trigger : Trigger) (gpu_id : Option ℕ) (at : Instant)
      → (script_status : Option ScriptStatus) (reason : Option Text) → AuditEvent
  script_changed :
      (source : Option ScriptStatus) (target : ScriptStatus) (trigger : Trigger)
      → (exit_code : Option ℤ) → AuditEvent
  script_dispatched : (dispatch_started_at : Instant) → AuditEvent
  script_acked : (pid : ℕ) (log_path : Option Text) (started_at : Instant) → AuditEvent
  dispatch_failed : AuditEvent
  dispatch_retried : (attempt_number : ℕ) (dispatch_started_at : Instant) → AuditEvent
  cancel_unreachable cancel_timed_out : AuditEvent

pub record AuditLog : Type 0 where
  pub event : AuditEvent
  pub actor_user_id : Option ℕ
  pub lab_id : Option ℕ
  pub target_id : Option ℕ
  pub target_server_id : Option ℕ

pub data NotificationType : Type 0 where
  reservation_started reservation_completed reservation_failed : NotificationType
  reservation_cancelled_by_other : NotificationType
  script_started script_completed script_failed script_killed : NotificationType

pub data Severity : Type 0 where
  info warn error : Severity

-- The page that a notification links to.
pub data CtaUrl : Type 0 where
  account_reservations : (physical_account_id reservation_id : ℕ) → CtaUrl
  all_reservations : CtaUrl
  account_scripts : (physical_account_id reservation_id : ℕ) → CtaUrl
  me_reservations : CtaUrl

-- `reservation_id` is the payload's key for the removal of duplicates.
pub record Notification : Type 0 where
  pub recipient_user_id : ℕ
  pub type : NotificationType
  pub severity : Severity
  pub reservation_id : ℕ
  pub body : Option Text
  pub cta_url : CtaUrl
  pub created_at : Instant

pub data Change : Type 0 where
  created cancelled transition : Change

-- The payload of a `reservation.status_change` frame.
pub record Frame : Type 0 where
  pub reservation_id : ℕ
  pub change : Change
  pub status : Status
  pub user_id : ℕ
  pub server_id : ℕ
  pub gpu_id : Option ℕ
  pub account_link_id : ℕ
  pub group_id : ℕ
  pub start_at : Instant
  pub end_at : Instant
  pub gpu_memory_mb : Option ℕ
  pub gpu_compute_share_pct : Option ℕ
  pub cancelled_at : Option Instant
  pub cancellation_reason : Option Text

pub data Push : Type 0 where
  status_change : (user_id : ℕ) → Frame → Push
  new_notification : (user_id : ℕ) → Notification → Push

-- `clock` is what `datetime.now(UTC)` returns. `next_id` is the table's AUTO_INCREMENT counter.
pub record Session : Type 0 where
  pub reservations : List Reservation
  pub next_id : ℕ
  pub links : ℕ → Option AccountLink
  pub servers : ℕ → Option Server
  pub gpus : ℕ → Option Gpu
  pub linux_usernames : ℕ → Option Text
  pub clock : Instant
  pub audits : List AuditLog
  pub notifications : List Notification
  pub pushes : List Push

-- The row with a primary key, as the session's identity map holds it.
unfoldable pub find : ℕ → List Reservation → Option Reservation
find n [] = none
find n (r ∷ rs) = if r.id == n then some r else find n rs

-- An assignment to attributes of the row with a primary key.
unfoldable pub update : ℕ → (Reservation → Reservation) → List Reservation → List Reservation
update n f [] = []
update n f (r ∷ rs) = (if r.id == n then f r else r) ∷ update n f rs
