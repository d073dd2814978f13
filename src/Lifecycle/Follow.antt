-- ===== src/Lifecycle/Follow.antt =====
-- The transitions, and the state machines of the rows.
use core_lab.Prelude.{ℕ, ◌≡◌, refl, subst, Bool, true, false, Option, some, List, arith}
use core_lab.Data.Status.{Status, ScriptStatus}
use core_lab.Data.Row.{Text, Instant, ℤ, Reservation}
use core_lab.Session.Tables.{Session, Trigger, find}
use core_lab.Session.Exec.{assign}
use core_lab.Session.Rows.{KeepsId}
use core_lab.Session.Rule.{Takes}
use core_lab.Lifecycle.Moves.{Leads, LeadsScript, Follows, Moves, Moves-refl, Moves-update}
use core_lab.Lifecycle.Transition.{
  transition_to_active, transition_to_completed, transition_to_failed, set_status, set_failed,
}
use core_lab.Lifecycle.Script.{
  update_script_status, mark_script_dispatched, set_script, set_dispatched,
}
use core_lab.Lifecycle.Effects.{
  update_if, transition_to_active_table, transition_to_completed_table, transition_to_failed_table,
  update_script_status_table, mark_script_dispatched_table,
}

pub update_if-Moves :
    (b : Bool) (n : ℕ) (f : Reservation → Reservation) (rows : List Reservation)
    → KeepsId n f
    → (b ≡ true → (r : Reservation) → find n rows ≡ some r → Follows r (f r))
    → Moves rows (update_if b n f rows)
update_if-Moves true n f rows keep step = Moves-update n f rows keep (step refl)
update_if-Moves false n f rows keep step = Moves-refl rows

-- An assignment that leaves both status columns alone.
pub assign-Moves :
    (n : ℕ) (f : Reservation → Reservation) (s : Session)
    → KeepsId n f
    → ((r : Reservation) → Follows r (f r))
    → Takes Moves (assign n f) s
assign-Moves n f s keep step = Moves-update n f s.reservations keep (λ r _. step r)

-- Where a row that is found is the given one, what follows from the given one follows from it.
pub from_found :
    (row : Reservation) (s : Session) (f : Reservation → Reservation)
    → find row.id s.reservations ≡ some row
    → Follows row (f row)
    → (r : Reservation) → find row.id s.reservations ≡ some r
    → Follows r (f r)
from_found row s f found step r e = subst (λ x. Follows x (f x)) (cc (found, e)) step

module _ (row : Reservation) (lab_id : ℕ) (s : Session)
    (found : find row.id s.reservations ≡ some row) where
  pub transition_to_active-Moves :
      (trigger : Trigger) (now : Instant)
      → Takes Moves (transition_to_active row lab_id trigger now) s
  transition_to_active-Moves trigger now =
      rw (transition_to_active_table row lab_id trigger now s) (
        update_if-Moves _ row.id (set_status Status.active) s.reservations (λ r h. h)
          (λ allowed.
            from_found row s (set_status Status.active) found
              (record { status = Leads.next _ Leads.here allowed; script = LeadsScript.here })))

  pub transition_to_completed-Moves :
      (trigger : Trigger) (now : Instant)
      → Takes Moves (transition_to_completed row lab_id trigger now) s
  transition_to_completed-Moves trigger now =
      rw (transition_to_completed_table row lab_id trigger now s) (
        update_if-Moves _ row.id (set_status Status.completed) s.reservations (λ r h. h)
          (λ allowed.
            from_found row s (set_status Status.completed) found
              (record { status = Leads.next _ Leads.here allowed; script = LeadsScript.here })))

  pub transition_to_failed-Moves :
      (reason : Text) (trigger : Trigger) (now : Instant)
      → Takes Moves (transition_to_failed row lab_id reason trigger now) s
  transition_to_failed-Moves reason trigger now =
      rw (transition_to_failed_table row lab_id reason trigger now s) (
        update_if-Moves _ row.id (set_failed reason) s.reservations (λ r h. h)
          (λ allowed.
            from_found row s (set_failed reason) found
              (record { status = Leads.next _ Leads.here allowed; script = LeadsScript.here })))

  pub update_script_status-Moves :
      (target : ScriptStatus) (trigger : Trigger) (exit_code : Option ℤ)
      (started_at finished_at : Option Instant)
      → Takes Moves
          (update_script_status row target lab_id trigger exit_code started_at finished_at)
          s
  update_script_status-Moves target trigger exit_code started_at finished_at =
      rw (update_script_status_table row target lab_id trigger exit_code started_at finished_at s) (
        update_if-Moves _ row.id (set_script target exit_code started_at finished_at) s.reservations
          (λ r h. h)
          (λ allowed.
            from_found row s (set_script target exit_code started_at finished_at) found (record {
              status = Leads.here;
              script = LeadsScript.next _ LeadsScript.here allowed;
            })))

  pub mark_script_dispatched-Moves :
      (now : Instant) → Takes Moves (mark_script_dispatched row lab_id now) s
  mark_script_dispatched-Moves now = rw (mark_script_dispatched_table row lab_id now s) (
      update_if-Moves _ row.id (set_dispatched now) s.reservations (λ r h. h)
        (λ allowed. from_found row s (set_dispatched now) found (record {
          status = Leads.here;
          script = LeadsScript.next _ LeadsScript.here (ground arith);
        })))
