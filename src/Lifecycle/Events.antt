-- ===== src/Lifecycle/Events.antt =====
-- The agent's pushes about a script: started, output chunk, finished
-- (backend/corelab_backend/services/script_lifecycle_service.py).
use core_lab.Prelude.{
  ℕ, Bool, false, Option, none, some, ◌==◌, first_some, is_none, is_empty, if◌then◌else◌,
}
use core_lab.Data.Status.{ScriptStatus, is_script}
use core_lab.Data.Row.{Text, Instant, ℤ, Reservation}
use core_lab.Session.Tables.{Session, AuditEvent, Trigger, NotificationType, Severity, CtaUrl}
use core_lab.Session.Exec.{Exec, ◌>>=◌, ◌>>◌, pure, gets, assign, get_row, flush}
use core_lab.Session.Write.{write_audit, create_notification}
use core_lab.Lifecycle.Script.{
  update_script_status, append_script_log_tail, script_log_tail_max_chars,
}

pub record ScriptStarted : Type 0 where
  pub reservation_id : ℕ
  pub pid : ℕ
  pub started_at : Instant
  pub log_path : Option Text

pub record ScriptOutputChunk : Type 0 where
  pub reservation_id : ℕ
  pub text : Text

pub record ScriptFinished : Type 0 where
  pub reservation_id : ℕ
  pub exit_code : Option ℤ
  pub finished_at : Instant
  pub output_size_bytes : ℕ
  pub log_path : Option Text
  pub killed_by_corelab : Bool

-- `if payload.log_path: row.script_log_path = payload.log_path`
abbrev pub set_log_path : Option Text → Reservation → Reservation
set_log_path none r = r
set_log_path (some path) r = if is_empty path then r else record r { script_log_path = some path }

-- `if payload.output_size_bytes: ...`
abbrev pub set_output_size : ℕ → Reservation → Reservation
set_output_size n r = if n == 0 then r else record r { script_output_size_bytes = some n }

-- The page of a script notification; without the link row it is the general list.
scripts_url : Session → Reservation → CtaUrl
scripts_url s row = elim (s.links row.account_link_id) [
  | none ↦ CtaUrl.me_reservations
  | some link ↦ CtaUrl.account_scripts link.physical_account_id row.id
]

-- `_notify_script_event`, without the text that it composes for display
unfoldable pub notify_script_event : Reservation → NotificationType → Severity → Exec (Unit {0})
unfolding scripts_url
notify_script_event row type severity = do
  n ← gets (λ s. record {
    recipient_user_id = row.user_id;
    type = type;
    severity = severity;
    reservation_id = row.id;
    body = none;
    cta_url = scripts_url s row;
    created_at = s.clock;
  })
  create_notification n

-- The audit row that the watchdog looks for, and the owner's notification.
unfoldable pub acknowledge : Reservation → ScriptStarted → ℕ → Exec (Unit {0})
acknowledge row payload lab_id = do
  write_audit (record {
    event = AuditEvent.script_acked payload.pid payload.log_path payload.started_at;
    actor_user_id = none;
    lab_id = some lab_id;
    target_id = some row.id;
    target_server_id = some row.server_id;
  })
  notify_script_event row NotificationType.script_started Severity.info

abbrev pub set_acked : ScriptStarted → Reservation → Reservation
set_acked payload r = set_log_path payload.log_path (record r {
  script_dispatch_started_at = none;
  script_started_at = first_some r.script_started_at (some payload.started_at);
})

-- The scheduler has dispatched the script: the dispatch is closed.
unfoldable pub ack_running : Reservation → ScriptStarted → ℕ → Exec (Unit {0})
ack_running row payload lab_id = do
  assign row.id (set_acked payload)
  flush
  acknowledge row payload lab_id

-- No dispatch came first: the row is walked through `update_script_status`.
unfoldable pub ack_unfired : Reservation → ScriptStarted → ℕ → Exec (Unit {0})
ack_unfired row payload lab_id = do
  update_script_status row ScriptStatus.running lab_id Trigger.agent_script_started none
      (some payload.started_at) none
  assign row.id (set_log_path payload.log_path)
  flush
  acknowledge row payload lab_id

unfoldable pub started_row : ScriptStarted → ℕ → Option Reservation → Exec (Unit {0})
started_row payload lab_id none = pure tt
started_row payload lab_id (some row) =
    if is_script ScriptStatus.running row.script_status
    then ack_running row payload lab_id
    else if is_none row.script_status
    then ack_unfired row payload lab_id
    else pure tt

unfoldable pub on_script_started : ScriptStarted → ℕ → Exec (Unit {0})
unfolding started_row
on_script_started payload lab_id = do
  row ← get_row payload.reservation_id
  started_row payload lab_id row

unfoldable pub chunk_row : ScriptOutputChunk → Option Reservation → Exec (Unit {0})
chunk_row payload none = pure tt
chunk_row payload (some row) = append_script_log_tail row payload.text script_log_tail_max_chars

unfoldable pub on_script_output_chunk : ScriptOutputChunk → Exec (Unit {0})
unfolding chunk_row
on_script_output_chunk payload = do row ← get_row payload.reservation_id; chunk_row payload row

abbrev is_zero : Option ℤ → Bool
is_zero none = false
is_zero (some (ℤ.pos n)) = n == 0
is_zero (some (ℤ.negsuc n)) = false

abbrev pub final_status : ScriptFinished → ScriptStatus
final_status payload =
    if payload.killed_by_corelab
    then ScriptStatus.killed
    else if is_zero payload.exit_code
    then ScriptStatus.completed
    else ScriptStatus.failed

-- `_FINISHED_NOTIFICATION_META`
abbrev pub finished_type : ScriptStatus → NotificationType
finished_type ScriptStatus.completed = NotificationType.script_completed
finished_type ScriptStatus.failed = NotificationType.script_failed
finished_type ScriptStatus.killed = NotificationType.script_killed
finished_type ScriptStatus.running = NotificationType.script_started

abbrev pub finished_severity : ScriptStatus → Severity
finished_severity ScriptStatus.completed = Severity.info
finished_severity ScriptStatus.failed = Severity.error
finished_severity ScriptStatus.killed = Severity.warn
finished_severity ScriptStatus.running = Severity.info

abbrev pub set_finished : ScriptFinished → Reservation → Reservation
set_finished payload r = set_log_path payload.log_path (set_output_size payload.output_size_bytes r)

unfoldable pub finish_running : Reservation → ScriptFinished → ℕ → Exec (Unit {0})
finish_running row payload lab_id = do
  update_script_status row (final_status payload) lab_id Trigger.agent_script_finished
      payload.exit_code none (some payload.finished_at)
  assign row.id (set_finished payload)
  flush
  notify_script_event row (finished_type (final_status payload))
      (finished_severity (final_status payload))

-- Whether a cancel that waits for this kill is woken (`_signal_lifecycle_kill`).
unfoldable pub finished_row : ScriptFinished → ℕ → Option Reservation → Exec Bool
finished_row payload lab_id none = pure false
finished_row payload lab_id (some row) = do
  if is_script ScriptStatus.running row.script_status
      then finish_running row payload lab_id
      else pure tt
  pure payload.killed_by_corelab

unfoldable pub on_script_finished : ScriptFinished → ℕ → Exec Bool
unfolding finished_row
on_script_finished payload lab_id = do
  row ← get_row payload.reservation_id
  finished_row payload lab_id row
