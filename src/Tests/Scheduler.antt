-- ===== src/Tests/Scheduler.antt =====
-- The theorems on the scheduler, at a factory that meets deadlocks and at two rows.
use core_lab.Prelude.{
  ℕ, ◌-◌, ◌≡◌, refl, arith, ◌==◌, [], ◌∷◌, true, false, none, every, if◌then◌else◌,
}
use core_lab.Data.Status.{Status}
use core_lab.Data.Row.{row_ok, script_fits, tail_fits}
use core_lab.Data.Error.{ok}
use core_lab.Session.Tables.{Session, find}
use core_lab.Scheduler.Tick.{is_due, is_over}
use core_lab.Scheduler.Loop.{waits}
use core_lab.Scheduler.Watchdog.{Pending, tick_body}
use core_lab.Scheduler.Loop.Runs.{NoBad}
use core_lab.Scheduler.Progress.{runs_nothing}
use core_lab.Scheduler.Progress.Whole.{tick_body-ends}
use core_lab.Tests.{today, hour, shared_row, session_with}
use core_lab.Scheduler.Retry.{Attempt, Finished, with_serializable_retry}
use core_lab.Scheduler.Retry.Bound.{Deadlocked, pauses, with_serializable_retry-ends}

-- A factory that returns 7 once its state has come down to 0.
abbrev count_down : ℕ → Attempt ℕ ℕ × ℕ
count_down n = if n == 0 then (Attempt.returned 7, n) else (Attempt.deadlock, n - 1)

abbrev two_deadlocks : Deadlocked count_down 2 2 0
two_deadlocks =
    Deadlocked.one_more {s₁ = 1} refl (Deadlocked.one_more {s₁ = 0} refl Deadlocked.none_yet)

with_serializable_retry-ends_example :
    with_serializable_retry count_down 5 50_000 2 ≡ (Finished.returned 7, pauses 50_000 0 2, 0)
with_serializable_retry-ends_example =
    with_serializable_retry-ends count_down 50_000 5 2 2 0 0 (Attempt.returned 7) (omega arith)
      two_deadlocks refl refl

-- A row that starts at the clock, and one that is over.
abbrev two_rows : Session
two_rows =
    record (session_with (
      shared_row
      ∷ record shared_row {
        id = 2;
        status = Status.active;
        start_at = today;
        script = none;
        script_scheduled_start_at = none;
        end_at = hour 1;
      }
      ∷ [])) { clock = hour 1 }

rows_ok : every row_ok two_rows.reservations ≡ true
unfolding row_ok script_fits tail_fits
rows_ok = refl

none_bad : NoBad runs_nothing two_rows
unfolding find
none_bad m = ground arith

tick_body-ends_example :
    ((p : Pending) × ((tick_body two_rows).0 ≡ ok p))
    × ((m : ℕ) → waits (is_due (hour 1)) (tick_body two_rows).1 m ≡ false)
    × ((m : ℕ) → waits (is_over (hour 1)) (tick_body two_rows).1 m ≡ false)
tick_body-ends_example = tick_body-ends two_rows refl none_bad rows_ok
