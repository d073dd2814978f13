-- ===== src/Lifecycle/Transition.antt =====
-- The transitions that the scheduler makes: to active, to completed, to failed. `row` is the
-- session's object as it stands when the call is made, and `lab_id` its server's lab.
use core_lab.Prelude.{ℕ, Bool, true, false, Option, none, some, is_empty, if◌then◌else◌}
use core_lab.Data.Status.{Status, status_in, allowed_transitions}
use core_lab.Data.Row.{Text, Instant, Reservation}
use core_lab.Data.Error.{Error}
use core_lab.Session.Tables.{
  Session, AuditEvent, AuditLog, Trigger, Notification, NotificationType, Severity, Change,
}
use core_lab.Session.Exec.{Exec, ◌>>=◌, ◌>>◌, gets, guard, assign, flush}
use core_lab.Session.Write.{write_audit, create_notification, reservation_cta_url, push_lifecycle}

-- `_assert_transition_allowed`
abbrev pub assert_transition_allowed : Status → Status → Exec (Unit {0})
assert_transition_allowed current target =
    guard (status_in target (allowed_transitions current)) (Error.illegal_transition current target)

-- `if not reservation.cancellation_reason: ... = reason`
abbrev pub keep_reason : Option Text → Text → Option Text
keep_reason none reason = some reason
keep_reason (some old) reason = if is_empty old then some reason else some old

abbrev pub set_status : Status → Reservation → Reservation
set_status target r = record r { status = target }

abbrev pub set_failed : Text → Reservation → Reservation
set_failed reason r = record r {
  status = Status.failed;
  cancellation_reason = keep_reason r.cancellation_reason reason;
}

-- The row that `_write_transition_audit` adds.
unfoldable pub transition_audit :
    Reservation → Status → Trigger → Instant → ℕ → Bool → Option Text → AuditLog
transition_audit row target trigger at lab_id with_script reason = record {
  event =
      AuditEvent.transitioned row.status target trigger row.gpu_id at
        (if with_script then row.script_status else none) reason;
  actor_user_id = none;
  lab_id = some lab_id;
  target_id = some row.id;
  target_server_id = some row.server_id;
}

-- The notification of the owner; its creation time is set when it is stored.
unfoldable pub notice :
    Session → Reservation → NotificationType → Severity → Option Text → Notification
notice s row type severity body = record {
  recipient_user_id = row.user_id;
  type = type;
  severity = severity;
  reservation_id = row.id;
  body = body;
  cta_url = reservation_cta_url s row;
  created_at = s.clock;
}

-- The audit row, the notification and the frame of a transition that has been flushed.
unfoldable pub report_transition :
    Reservation → Reservation → AuditLog → NotificationType → Severity → Exec (Unit {0})
unfolding notice
report_transition row row' entry type severity = do
  write_audit entry
  n ← gets (λ s. notice s row type severity none)
  create_notification n
  push_lifecycle row' Change.transition

unfoldable pub transition_to_active : Reservation → ℕ → Trigger → Instant → Exec (Unit {0})
transition_to_active row lab_id trigger now = do
  assert_transition_allowed row.status Status.active
  assign row.id (set_status Status.active)
  flush
  report_transition row (set_status Status.active row)
      (transition_audit row Status.active trigger now lab_id false none)
      NotificationType.reservation_started Severity.info

unfoldable pub transition_to_completed : Reservation → ℕ → Trigger → Instant → Exec (Unit {0})
transition_to_completed row lab_id trigger now = do
  assert_transition_allowed row.status Status.completed
  assign row.id (set_status Status.completed)
  flush
  report_transition row (set_status Status.completed row)
      (transition_audit row Status.completed trigger now lab_id true none)
      NotificationType.reservation_completed Severity.info

unfoldable pub transition_to_failed : Reservation → ℕ → Text → Trigger → Instant → Exec (Unit {0})
transition_to_failed row lab_id reason trigger now = do
  assert_transition_allowed row.status Status.failed
  assign row.id (set_failed reason)
  flush
  report_transition row (set_failed reason row)
      (transition_audit row Status.failed trigger now lab_id true (some reason))
      NotificationType.reservation_failed Severity.warn
