-- ===== src/Scheduler/Progress.antt =====
-- What the clock makes due is done by the next tick: the rounds that promote and close.
pub mod Scripts
pub mod Whole
use core_lab.Prelude.{
  ℕ, ◌≡◌, refl, sym, ap, subst, ◌∙◌, Bool, true, false, ◌&&◌, Option, none, some, List, [], ◌∷◌,
  ◌++◌, arith, map, every, is_none, if◌then◌else◌,
}
use core_lab.Data.Status.{Status, ScriptStatus, is_script}
use core_lab.Data.Row.{Text, Instant, Reservation, row_ok}
use core_lab.Data.Error.{ok}
use core_lab.Session.Tables.{
  Session, Trigger, update, Notification, AuditLog, NotificationType, Severity,
}
use core_lab.Session.Exec.{flush}
use core_lab.Session.Write.{notified, reservations-notified}
use core_lab.Lifecycle.Transition.{
  transition_to_active, transition_to_completed, transition_to_failed, report_transition,
  set_status, set_failed, transition_audit, notice,
}
use core_lab.Scheduler.Tick.{
  keys, for_rows, is_due, is_over, is_dispatchable, promote, close, dispatch, dispatch_to, Dispatch,
  build_execute_payload, linux_username_of, promote_due_scheduled, close_due_active,
  dispatch_due_scripts, script_broken, script_reason,
}
use core_lab.Lifecycle.Script.{mark_script_dispatched, set_dispatched}
use core_lab.Scheduler.Loop.{Round, waits, distinct}
use core_lab.Scheduler.Loop.Runs.{NoBad, all-Ends, none-waits, NoBad-kept}

servers-notified : (n : Notification) (s : Session) → (notified n s).servers ≡ s.servers
unfolding notified
servers-notified n s = ground arith

-- What a report leaves alone.
pub report_transition-quiet :
    (row row' : Reservation) (entry : AuditLog) (type : NotificationType) (severity : Severity)
    (s : Session)
    → ((report_transition row row' entry type severity s).0 ≡ ok tt)
      × ((report_transition row row' entry type severity s).1.reservations ≡ s.reservations)
      × ((report_transition row row' entry type severity s).1.servers ≡ s.servers)
unfolding report_transition
report_transition-quiet row row' entry type severity s = (
  refl,
  reservations-notified
      (notice (record s { audits = s.audits ++ entry ∷ [] }) row type severity none)
      (record s { audits = s.audits ++ entry ∷ [] }),
  servers-notified (notice (record s { audits = s.audits ++ entry ∷ [] }) row type severity none)
      (record s { audits = s.audits ++ entry ∷ [] }),
)

-- What closing a row makes of the rows with its key.
abbrev pub closed : Reservation → Reservation → Reservation
closed row r =
    if script_broken row
    then set_failed (script_reason row.script_status) r
    else set_status Status.completed r

module _ (now : Instant) (row : Reservation) (lab_id : ℕ) (s : Session) where
  promote_lem :
      is_due now row ≡ true
      → every row_ok (update row.id (set_status Status.active) s.reservations) ≡ true
      → ((promote now row lab_id s).0 ≡ ok (row.id ∷ []))
        × ((promote now row lab_id s).1.reservations
            ≡ update row.id (set_status Status.active) s.reservations)
        × ((promote now row lab_id s).1.servers ≡ s.servers)
  unfolding promote transition_to_active flush
  promote_lem h fine = ground (
    arith,
    h,
    fine,
    report_transition-quiet row (set_status Status.active row)
        (transition_audit row Status.active Trigger.scheduler_start_at now lab_id false none)
        NotificationType.reservation_started Severity.info
        (record s { reservations = update row.id (set_status Status.active) s.reservations }),
  )

  close_lem :
      is_over now row ≡ true
      → every row_ok (update row.id (closed row) s.reservations) ≡ true
      → ((close now row lab_id s).0 ≡ ok (row.id ∷ []))
        × ((close now row lab_id s).1.reservations ≡ update row.id (closed row) s.reservations)
        × ((close now row lab_id s).1.servers ≡ s.servers)
  unfolding close transition_to_completed transition_to_failed flush
  close_lem h fine = go (script_broken row) refl
    where
      go :
          (b : Bool)
          → script_broken row ≡ b
          → ((close now row lab_id s).0 ≡ ok (row.id ∷ []))
            × ((close now row lab_id s).1.reservations ≡ update row.id (closed row) s.reservations)
            × ((close now row lab_id s).1.servers ≡ s.servers)
      go true e = ground (
        arith,
        e,
        h,
        fine,
        report_transition-quiet row (set_failed (script_reason row.script_status) row)
            (transition_audit row Status.failed Trigger.scheduler_end_at now lab_id true
              (some (script_reason row.script_status)))
            NotificationType.reservation_failed Severity.warn
            (record s {
              reservations =
                  update row.id (set_failed (script_reason row.script_status)) s.reservations;
            }),
      )
      go false e = ground (
        arith,
        e,
        h,
        fine,
        report_transition-quiet row (set_status Status.completed row)
            (transition_audit row Status.completed Trigger.scheduler_end_at now lab_id true none)
            NotificationType.reservation_completed Severity.info
            (record s {
              reservations = update row.id (set_status Status.completed) s.reservations;
            }),
      )

-- A script that is said to be running although there is none.
abbrev pub runs_nothing : Reservation → Bool
runs_nothing r = is_script ScriptStatus.running r.script_status && is_none r.script

pub promote-Round :
    (now : Instant)
    → Round (is_due now) runs_nothing (λ s row. set_status Status.active) (promote now)
unfolding row_ok
promote-Round now = record {
  returns = λ row lab_id s h _ fine. (row.id ∷ [], (promote_lem now row lab_id s h fine).0);
  table = λ row lab_id s h _ fine.
      let (_, rows, servers) = promote_lem now row lab_id s h fine in (rows, servers);
  same_id = λ s row r. refl;
  same_server = λ s row r. refl;
  same_ok = λ s row r. refl;
  not_bad = λ s row h k. k;
}

pub close-Round : (now : Instant) → Round (is_over now) runs_nothing (λ s. closed) (close now)
unfolding row_ok
close-Round now = record {
  returns = λ row lab_id s h _ fine. (row.id ∷ [], (close_lem now row lab_id s h fine).0);
  table = λ row lab_id s h _ fine.
      let (_, rows, servers) = close_lem now row lab_id s h fine in (rows, servers);
  same_id = λ s row r. ground arith;
  same_server = λ s row r. ground arith;
  same_ok = λ s row r. ground arith;
  not_bad = λ s row h k. ground (arith, k);
}
