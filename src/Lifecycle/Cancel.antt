-- ===== src/Lifecycle/Cancel.antt =====
-- `cancel_reservation` and `cancel_group`.
pub mod Effects
pub mod Group
use core_lab.Prelude.{
  ℕ, Bool, true, false, ◌&&◌, ◌||◌, not, Option, none, some, List, [], ◌∷◌, map, ◌==◌, length,
  is_empty, select, if◌then◌else◌,
}
use core_lab.Data.Status.{
  Status, ScriptStatus, status_eq, status_in, is_live, is_script, terminal_statuses,
}
use core_lab.Data.Row.{Text, Instant, Reservation}
use core_lab.Data.Error.{Check, Error, require, ◌and_then◌}
use core_lab.Session.Tables.{Session, AuditEvent, AuditLog, Change, NotificationType, Severity}
use core_lab.Session.Exec.{
  Exec, ◌>>=◌, ◌>>◌, pure, raise, guard, query, gets, assign, get_row, flush,
}
use core_lab.Session.Write.{write_audit, create_notification, push_lifecycle}
use core_lab.Lifecycle.Transition.{assert_transition_allowed, notice}

-- Who cancels, with which right, and why.
pub record Cancel : Type 0 where
  pub actor_user_id : ℕ
  pub actor_can_admin : Bool
  pub reason : Option Text
  pub lab_id : ℕ

abbrev pub set_cancelled : Cancel → Instant → Reservation → Reservation
set_cancelled c at r = record r {
  status = Status.cancelled;
  cancelled_at = some at;
  cancelled_by_user_id = some c.actor_user_id;
  cancellation_reason = c.reason;
}

-- The guards on the locked row.
unfoldable pub may_cancel : Cancel → Reservation → Check
may_cancel c row =
    require (not (status_in row.status terminal_statuses)) Error.reservation_error
    and_then require (c.actor_can_admin || row.user_id == c.actor_user_id)
        Error.cancel_not_permitted

-- An admin cancels the reservation of another user.
abbrev by_admin : Cancel → ℕ → Bool
by_admin c owner = c.actor_can_admin && not (owner == c.actor_user_id)

notify_owner : Cancel → Reservation → Exec (Unit {0})
notify_owner c row =
    if by_admin c row.user_id
    then (do
      n ←
          gets (λ s.
            notice s row NotificationType.reservation_cancelled_by_other Severity.warn c.reason)
      create_notification n)
    else pure tt

abbrev cancel_entry : Cancel → Reservation → AuditLog
cancel_entry c row = record {
  event = AuditEvent.cancelled row.user_id c.reason (by_admin c row.user_id);
  actor_user_id = some c.actor_user_id;
  lab_id = some c.lab_id;
  target_id = some row.id;
  target_server_id = some row.server_id;
}

cancel_locked : Cancel → Option Reservation → Exec Reservation
unfolding notify_owner
cancel_locked c none = raise Error.reservation_not_found
cancel_locked c (some row) = do
  query (λ s. may_cancel c row)
  assert_transition_allowed row.status Status.cancelled
  at ← gets (λ s. s.clock)
  assign row.id (set_cancelled c at)
  flush
  write_audit (cancel_entry c row)
  notify_owner c row
  push_lifecycle (set_cancelled c at row) Change.cancelled
  pure (set_cancelled c at row)

unfoldable pub cancel_reservation : Cancel → ℕ → Exec Reservation
unfolding cancel_locked
cancel_reservation c n = do row ← get_row n; cancel_locked c row

-- The rows of a group that are still scheduled or active.
abbrev pub group_rows : ℕ → List Reservation → List Reservation
group_rows group_id = select (λ r. r.group_id == group_id && is_live r.status)

abbrev pub has_running_script : Reservation → Bool
has_running_script r =
    status_eq r.status Status.active && is_script ScriptStatus.running r.script_status

-- The guards of a group cancel; the owner is that of the first row.
unfoldable pub may_cancel_group : Cancel → List Reservation → Check
may_cancel_group c [] = require false Error.reservation_not_found
may_cancel_group c (row ∷ rows) =
    require (c.actor_can_admin || row.user_id == c.actor_user_id) Error.cancel_not_permitted
    and_then require (is_empty (select has_running_script (row ∷ rows))) (
        Error.group_cancel_running_script
          (map (λ r. r.id) (select has_running_script (row ∷ rows))))

assign_all : Cancel → Instant → List Reservation → Exec (Unit {0})
assign_all c at [] = pure tt
assign_all c at (row ∷ rows) = do assign row.id (set_cancelled c at); assign_all c at rows

push_all : Cancel → Instant → List Reservation → Exec (Unit {0})
push_all c at [] = pure tt
push_all c at (row ∷ rows) = do
  push_lifecycle (set_cancelled c at row) Change.cancelled
  push_all c at rows

audit_group : Cancel → ℕ → List Reservation → Exec (Unit {0})
audit_group c group_id [] = pure tt
audit_group c group_id (row ∷ rows) = write_audit (record {
  event =
      AuditEvent.group_cancelled group_id (length (row ∷ rows)) c.reason row.user_id
        (by_admin c row.user_id);
  actor_user_id = some c.actor_user_id;
  lab_id = some c.lab_id;
  target_id = none;
  target_server_id = some row.server_id;
})

unfoldable pub cancel_group : Cancel → ℕ → Exec (List Reservation)
unfolding assign_all push_all audit_group
cancel_group c group_id = do
  rows ← gets (λ s. group_rows group_id s.reservations)
  query (λ s. may_cancel_group c rows)
  at ← gets (λ s. s.clock)
  assign_all c at rows
  flush
  audit_group c group_id rows
  push_all c at rows
  pure (map (set_cancelled c at) rows)
