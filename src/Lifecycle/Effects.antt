-- ===== src/Lifecycle/Effects.antt =====
-- What each transition leaves in the reservation table.
use core_lab.Prelude.{
  ℕ, ◌≡◌, refl, Bool, true, false, Option, none, some, List, is_none, ◌&&◌, arith, every,
  if◌then◌else◌,
}
use core_lab.Data.Status.{
  Status, ScriptStatus, status_eq, status_in, script_in, allowed_transitions,
  allowed_script_transitions,
}
use core_lab.Data.Row.{Text, Instant, ℤ, Reservation, row_ok}
use core_lab.Data.Error.{Error, ok, require, ◌and_then◌}
use core_lab.Session.Tables.{Session, AuditLog, NotificationType, Severity, Trigger, update}
use core_lab.Session.Exec.{flush}
use core_lab.Session.Write.{reservations-notified}
use core_lab.Lifecycle.Transition.{
  transition_to_active, transition_to_completed, transition_to_failed, transition_audit,
  report_transition, set_status, set_failed,
}
use core_lab.Lifecycle.Script.{
  update_script_status, mark_script_dispatched, set_script, set_dispatched,
}

-- The audit row, the notification and the frame leave the table alone, and none of them raises.
report_transition-quiet :
    (row row' : Reservation) (entry : AuditLog) (type : NotificationType) (severity : Severity)
    (s : Session)
    → ((report_transition row row' entry type severity s).0 ≡ ok tt)
      × ((report_transition row row' entry type severity s).1.reservations ≡ s.reservations)
unfolding report_transition
report_transition-quiet row row' entry type severity s = (refl, reservations-notified _ _)

-- A table with an assignment made if a test holds.
abbrev pub update_if : Bool → ℕ → (Reservation → Reservation) → List Reservation → List Reservation
update_if b n f rows = if b then update n f rows else rows

abbrev assigned : ℕ → (Reservation → Reservation) → Session → Session
assigned n f s = record s { reservations = update n f s.reservations }

module _ (row : Reservation) (lab_id : ℕ) (trigger : Trigger) (now : Instant) (s : Session) where
  pub transition_to_active_table :
      (transition_to_active row lab_id trigger now s).1.reservations
      ≡ update_if
          (status_in Status.active (allowed_transitions row.status))
          row.id
          (set_status Status.active)
          s.reservations
  unfolding transition_to_active flush
  transition_to_active_table = ground (
    arith,
    report_transition-quiet row (set_status Status.active row)
        (transition_audit row Status.active trigger now lab_id false none)
        NotificationType.reservation_started Severity.info
        (assigned row.id (set_status Status.active) s),
  )

  pub transition_to_active_result : (transition_to_active row lab_id trigger now s).0 ≡ (
      require
        (status_in Status.active (allowed_transitions row.status))
        (Error.illegal_transition row.status Status.active)
      and_then require
          (every row_ok (update row.id (set_status Status.active) s.reservations))
          Error.integrity_error)
  unfolding transition_to_active flush
  transition_to_active_result = ground (
    arith,
    report_transition-quiet row (set_status Status.active row)
        (transition_audit row Status.active trigger now lab_id false none)
        NotificationType.reservation_started Severity.info
        (assigned row.id (set_status Status.active) s),
  )

  pub transition_to_completed_table :
      (transition_to_completed row lab_id trigger now s).1.reservations
      ≡ update_if
          (status_in Status.completed (allowed_transitions row.status))
          row.id
          (set_status Status.completed)
          s.reservations
  unfolding transition_to_completed flush
  transition_to_completed_table = ground (
    arith,
    report_transition-quiet row (set_status Status.completed row)
        (transition_audit row Status.completed trigger now lab_id true none)
        NotificationType.reservation_completed Severity.info
        (assigned row.id (set_status Status.completed) s),
  )

  pub transition_to_completed_result : (transition_to_completed row lab_id trigger now s).0 ≡ (
      require
        (status_in Status.completed (allowed_transitions row.status))
        (Error.illegal_transition row.status Status.completed)
      and_then require
          (every row_ok (update row.id (set_status Status.completed) s.reservations))
          Error.integrity_error)
  unfolding transition_to_completed flush
  transition_to_completed_result = ground (
    arith,
    report_transition-quiet row (set_status Status.completed row)
        (transition_audit row Status.completed trigger now lab_id true none)
        NotificationType.reservation_completed Severity.info
        (assigned row.id (set_status Status.completed) s),
  )

module _ (row : Reservation) (lab_id : ℕ) (reason : Text) (trigger : Trigger) (now : Instant)
    (s : Session) where
  pub transition_to_failed_table :
      (transition_to_failed row lab_id reason trigger now s).1.reservations
      ≡ update_if
          (status_in Status.failed (allowed_transitions row.status))
          row.id
          (set_failed reason)
          s.reservations
  unfolding transition_to_failed flush
  transition_to_failed_table = ground (
    arith,
    report_transition-quiet row (set_failed reason row)
        (transition_audit row Status.failed trigger now lab_id true (some reason))
        NotificationType.reservation_failed Severity.warn (assigned row.id (set_failed reason) s),
  )

  pub transition_to_failed_result : (transition_to_failed row lab_id reason trigger now s).0 ≡ (
      require
        (status_in Status.failed (allowed_transitions row.status))
        (Error.illegal_transition row.status Status.failed)
      and_then require
          (every row_ok (update row.id (set_failed reason) s.reservations))
          Error.integrity_error)
  unfolding transition_to_failed flush
  transition_to_failed_result = ground (
    arith,
    report_transition-quiet row (set_failed reason row)
        (transition_audit row Status.failed trigger now lab_id true (some reason))
        NotificationType.reservation_failed Severity.warn (assigned row.id (set_failed reason) s),
  )

module _ (row : Reservation) (target : ScriptStatus) (lab_id : ℕ) (trigger : Trigger)
    (exit_code : Option ℤ) (started_at finished_at : Option Instant) (s : Session) where
  pub update_script_status_table :
      (update_script_status row target lab_id trigger exit_code started_at finished_at
        s).1.reservations
      ≡ update_if
          (script_in target (allowed_script_transitions row.script_status))
          row.id
          (set_script target exit_code started_at finished_at)
          s.reservations
  unfolding update_script_status flush
  update_script_status_table = ground arith

pub mark_script_dispatched_table :
    (row : Reservation) (lab_id : ℕ) (now : Instant) (s : Session)
    → (mark_script_dispatched row lab_id now s).1.reservations
      ≡ update_if
          (status_eq row.status Status.active && is_none row.script_status)
          row.id
          (set_dispatched now)
          s.reservations
unfolding mark_script_dispatched flush
mark_script_dispatched_table row lab_id now s = ground arith
