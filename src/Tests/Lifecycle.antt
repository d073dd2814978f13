-- ===== src/Tests/Lifecycle.antt =====
-- The theorems on the life of a reservation, at the sample.
use core_lab.Prelude.{ℕ, false, ◌≡◌, refl, some, [], ◌∷◌}
use core_lab.Data.Status.{Status}
use core_lab.Data.Row.{Reservation, row_ok, script_fits, tail_fits}
use core_lab.Data.Error.{Error, ok, err}
use core_lab.Session.Tables.{Session, find, update}
use core_lab.Session.Exec.{flush}
use core_lab.Lifecycle.Cancel.{
  Cancel, may_cancel, cancel_reservation, cancel_group, group_rows, may_cancel_group, set_cancelled,
}
use core_lab.Lifecycle.Cancel.Effects.{cancel_reservation-frees}
use core_lab.Booking.Conflict.{overlaps}
use core_lab.Lifecycle.Cancel.Group.{cancel_group_complete}
use core_lab.Lifecycle.Script.{mark_script_dispatched}
use core_lab.Tests.{today, shared_row, sample, by_owner}

in_sample : find 1 sample.reservations ≡ some shared_row
unfolding find
in_sample = refl

-- One reservation, cancelled.
abbrev one_cancelled : Session
one_cancelled = (cancel_reservation by_owner 1 sample).1

abbrev cancelled_row : Reservation
cancelled_row = set_cancelled by_owner today shared_row

one_runs : cancel_reservation by_owner 1 sample ≡ (ok cancelled_row, one_cancelled)
unfolding cancel_reservation may_cancel update find flush row_ok script_fits tail_fits
one_runs = refl

cancel_reservation-frees_example :
    (find 1 one_cancelled.reservations ≡ some cancelled_row)
    × (Status.cancelled ≡ Status.cancelled)
    × (some by_owner.actor_user_id ≡ some by_owner.actor_user_id)
    × (some today ≡ some today)
    × (by_owner.reason ≡ by_owner.reason)
    × ((g a b : ℕ) → overlaps g a b cancelled_row ≡ false)
    × ((d : Cancel) → (cancel_reservation d 1 one_cancelled).0 ≡ err Error.reservation_error)
cancel_reservation-frees_example =
    cancel_reservation-frees by_owner 1 sample one_cancelled shared_row cancelled_row in_sample
      one_runs

-- The call, run.
abbrev group_cancelled : Session
group_cancelled = (cancel_group by_owner 40 sample).1

group_runs :
    cancel_group by_owner 40 sample
    ≡ (ok (set_cancelled by_owner today shared_row ∷ []), group_cancelled)
unfolding cancel_group may_cancel_group update flush row_ok script_fits tail_fits
group_runs = refl

cancel_group_complete_example : group_rows 40 group_cancelled.reservations ≡ []
cancel_group_complete_example =
    cancel_group_complete by_owner 40 sample group_cancelled
      (set_cancelled by_owner today shared_row ∷ []) group_runs

-- A reservation that runs and whose script was not dispatched yet.
abbrev due_row : Reservation
due_row = record shared_row { status = Status.active }

abbrev due : Session
due = record sample { reservations = due_row ∷ [] }

abbrev dispatched : Session
dispatched = (mark_script_dispatched due_row 7 today due).1
