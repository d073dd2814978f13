-- ===== src/Scheduler/Progress/Whole.antt =====
-- The whole tick.
use core_lab.Prelude.{
  ℕ, ◌≡◌, refl, sym, ap, subst, ◌∙◌, Bool, true, false, List, arith, map, every, leb,
}
use core_lab.Data.Status.{Status}
use core_lab.Data.Row.{Instant, Reservation, row_ok}
use core_lab.Data.Error.{Result, ok}
use core_lab.Session.Tables.{Session}
use core_lab.Lifecycle.Transition.{set_status}
use core_lab.Scheduler.Tick.{
  keys, for_rows, is_due, is_over, is_dispatchable, promote, close, dispatch, Dispatch,
  linux_username_of, promote_due_scheduled, close_due_active, dispatch_due_scripts,
}
use core_lab.Scheduler.Watchdog.{
  is_stuck, reap, retry_stuck_dispatches, lifecycle_started_seen, count_dispatch_failures,
  watchdog_max_dispatch_attempts, Pending, tick_actions, tick_body, settle,
}
use core_lab.Scheduler.Loop.{waits, distinct}
use core_lab.Scheduler.Loop.Runs.{Ends, NoBad, all-Ends, none-waits, NoBad-kept}
use core_lab.Scheduler.Progress.{closed, runs_nothing, promote-Round, close-Round}
use core_lab.Scheduler.Progress.Scripts.{dispatched, dispatch-Round, reaped, reap-Round}

module _ (s : Session) (apart : distinct (map (λ r. r.id) s.reservations) ≡ true)
    (well : NoBad runs_nothing s) (fine : every row_ok s.reservations ≡ true) where
  abbrev now : Instant
  now = s.clock

  abbrev Acts : Type 0
  Acts = Session → Reservation → Reservation → Reservation

  abbrev promotes : Acts
  promotes s row = set_status Status.active

  abbrev closes : Acts
  closes s = closed

  abbrev dispatches : Acts
  dispatches s row = dispatched now (linux_username_of s row)

  abbrev reaps : Acts
  reaps s row =
      reaped (lifecycle_started_seen row.id s.audits)
        (leb watchdog_max_dispatch_attempts (count_dispatch_failures row.id s.audits)) now
        (linux_username_of s row)

  abbrev r1 : Result (List ℕ) × Session
  r1 = for_rows (promote now) (keys (is_due now) s) s

  abbrev r2 : Result (List ℕ) × Session
  r2 = for_rows (close now) (keys (is_over now) r1.1) r1.1

  abbrev r3 : Result (List Dispatch) × Session
  r3 = for_rows (dispatch now) (keys (is_dispatchable now) r2.1) r2.1

  abbrev r4 : Result (List Dispatch) × Session
  r4 = for_rows (reap now) (keys (is_stuck now) r3.1) r3.1

  ends1 : Ends (is_due now) promotes (keys (is_due now) s) s r1
  ends1 =
      all-Ends (is_due now) runs_nothing promotes (promote now) s (promote-Round now) apart well
        fine

  well1 : NoBad runs_nothing r1.1
  well1 =
      NoBad-kept (is_due now) runs_nothing promotes (promote now) (promote-Round now) s r1.1
        ends1.kept well

  apart1 : distinct (map (λ r. r.id) r1.1.reservations) ≡ true
  apart1 = subst (λ ns. distinct ns ≡ true) (sym ends1.ids) apart

  ends2 : Ends (is_over now) closes (keys (is_over now) r1.1) r1.1 r2
  ends2 =
      all-Ends (is_over now) runs_nothing closes (close now) r1.1 (close-Round now) apart1 well1
        ends1.rows_ok

  well2 : NoBad runs_nothing r2.1
  well2 =
      NoBad-kept (is_over now) runs_nothing closes (close now) (close-Round now) r1.1 r2.1
        ends2.kept well1

  apart2 : distinct (map (λ r. r.id) r2.1.reservations) ≡ true
  apart2 = subst (λ ns. distinct ns ≡ true) (sym ends2.ids) apart1

  ends3 : Ends (is_dispatchable now) dispatches (keys (is_dispatchable now) r2.1) r2.1 r3
  ends3 =
      all-Ends (is_dispatchable now) runs_nothing dispatches (dispatch now) r2.1
        (dispatch-Round now) apart2 well2 ends2.rows_ok

  ends4 : Ends (is_stuck now) reaps (keys (is_stuck now) r3.1) r3.1 r4
  ends4 =
      all-Ends (is_stuck now) runs_nothing reaps (reap now) r3.1 (reap-Round now)
        (subst (λ ns. distinct ns ≡ true) (sym ends3.ids) apart2)
        (NoBad-kept (is_dispatchable now) runs_nothing dispatches (dispatch now)
          (dispatch-Round now) r2.1 r3.1 ends3.kept well2)
        ends3.rows_ok

  abbrev pending : Pending
  pending = record { dispatches = ends3.result.0; retries = ends4.result.0 }

  tick_actions-ends : tick_actions now s ≡ (ok pending, r4.1)
  unfolding tick_actions promote_due_scheduled close_due_active dispatch_due_scripts
      retry_stuck_dispatches
  tick_actions-ends = ground (arith, ends1.result.1, ends2.result.1, ends3.result.1, ends4.result.1)

  not_kept : {a b : Bool} → (a ≡ true → b ≡ true) → b ≡ false → a ≡ false
  not_kept {a = true} h k = ground (arith, h refl, k)
  not_kept {a = false} h k = refl

  none_due : (m : ℕ) → waits (is_due now) r4.1 m ≡ false
  none_due m =
      not_kept
        (λ h.
          ends2.kept (is_due now) (λ s row h k. ground (arith, k)) m
            (ends3.kept (is_due now) (λ s row h k. ground (arith, k)) m
              (ends4.kept (is_due now) (λ s row h k. ground (arith, k)) m h)))
        (none-waits (is_due now) promotes s r1 ends1 (λ s row h. refl) m)

  none_over : (m : ℕ) → waits (is_over now) r4.1 m ≡ false
  none_over m =
      not_kept
        (λ h.
          ends3.kept (is_over now) (λ s row h k. ground (arith, k)) m
            (ends4.kept (is_over now) (λ s row h k. ground (arith, k)) m h))
        (none-waits (is_over now) closes r1.1 r2 ends2 (λ s row h. ground arith) m)

-- From a table with distinct keys that meets its constraints, where no row on a server of some lab
-- is said to run a script that it does not have, a tick commits, and afterwards no reservation on a
-- server of some lab is scheduled with its start at or before the clock, and none is active with its
-- end at or before it, those included that the tick has just promoted.
pub tick_body-ends :
    (s : Session)
    → distinct (map (λ r. r.id) s.reservations) ≡ true
    → NoBad runs_nothing s
    → every row_ok s.reservations ≡ true
    → ((p : Pending) × ((tick_body s).0 ≡ ok p))
      × ((m : ℕ) → waits (is_due s.clock) (tick_body s).1 m ≡ false)
      × ((m : ℕ) → waits (is_over s.clock) (tick_body s).1 m ≡ false)
unfolding tick_body
tick_body-ends s apart well fine =
    let whole = ap (settle s) (tick_actions-ends s apart well fine) in
    (
      (pending s apart well fine, ap (λ (x : Result Pending × Session). x.0) whole),
      λ m.
          ap (λ (x : Result Pending × Session). waits (is_due s.clock) x.1 m) whole
          ∙ none_due s apart well fine m,
      λ m.
          ap (λ (x : Result Pending × Session). waits (is_over s.clock) x.1 m) whole
          ∙ none_over s apart well fine m,
    )
