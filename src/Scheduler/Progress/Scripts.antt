-- ===== src/Scheduler/Progress/Scripts.antt =====
-- The rounds that dispatch a script, and that reap a stuck dispatch.
use core_lab.Prelude.{
  ℕ, ◌≡◌, refl, sym, Bool, true, false, Option, none, some, List, [], ◌∷◌, arith, every, leb,
  if◌then◌else◌,
}
use core_lab.Data.Status.{Status}
use core_lab.Data.Row.{Text, Instant, Reservation, row_ok}
use core_lab.Data.Error.{ok}
use core_lab.Session.Tables.{Session, Trigger, update, NotificationType, Severity}
use core_lab.Session.Exec.{Exec, flush}
use core_lab.Lifecycle.Transition.{transition_to_failed, set_failed, transition_audit}
use core_lab.Scheduler.Tick.{is_dispatchable, dispatch, dispatch_to, Dispatch, linux_username_of}
use core_lab.Lifecycle.Script.{mark_script_dispatched, set_dispatched}
use core_lab.Scheduler.Loop.{Round}
use core_lab.Session.Write.{codes}
use core_lab.Scheduler.Watchdog.{
  is_stuck, reap, retry, heal, give_up, set_dispatch_started, lifecycle_started_seen,
  count_dispatch_failures, watchdog_max_dispatch_attempts,
}
use core_lab.Scheduler.Progress.{report_transition-quiet, runs_nothing}

-- What dispatching a row makes of the rows with its key.
abbrev pub dispatched : Instant → Option Text → Reservation → Reservation
dispatched now none r = r
dispatched now (some username) r = set_dispatched now r

update-same : (n : ℕ) (rows : List Reservation) → update n (λ r. r) rows ≡ rows
unfolding update
update-same n [] = refl
update-same n (r ∷ rows) = ground (arith, update-same n rows)

dispatch_lem :
    (now : Instant) (row : Reservation) (lab_id : ℕ) (s : Session)
    → is_dispatchable now row ≡ true
    → every row_ok (update row.id (dispatched now (linux_username_of s row)) s.reservations) ≡ true
    → ((a : List Dispatch) × ((dispatch now row lab_id s).0 ≡ ok a))
      × ((dispatch now row lab_id s).1.reservations
          ≡ update row.id (dispatched now (linux_username_of s row)) s.reservations)
      × ((dispatch now row lab_id s).1.servers ≡ s.servers)
unfolding dispatch dispatch_to mark_script_dispatched flush
dispatch_lem now row lab_id s h fine = go (linux_username_of s row) row.script refl fine
  where
    go :
        (username : Option Text) (script : Option Text)
        → row.script ≡ script
        → every row_ok (update row.id (dispatched now username) s.reservations) ≡ true
        → ((a : List Dispatch) × ((dispatch_to now row lab_id username s).0 ≡ ok a))
          × ((dispatch_to now row lab_id username s).1.reservations
              ≡ update row.id (dispatched now username) s.reservations)
          × ((dispatch_to now row lab_id username s).1.servers ≡ s.servers)
    go none script e fine = (([], refl), sym (update-same row.id s.reservations), refl)
    go (some username) none e fine = ground (arith, h, e)
    go (some username) (some script) e fine = (
      (
        record {
          reservation_id = row.id;
          server_id = row.server_id;
          linux_username = username;
          script = script;
          max_runtime_seconds = row.script_max_runtime_seconds;
        }
            ∷ [],
        ground (arith, h, e, fine),
      ),
      ground (arith, h, e, fine),
      ground (arith, h, e, fine),
    )

pub dispatch-Round :
    (now : Instant)
    → Round
        (is_dispatchable now)
        runs_nothing
        (λ s row. dispatched now (linux_username_of s row))
        (dispatch now)
unfolding row_ok
dispatch-Round now = record {
  returns = λ row lab_id s h _ fine. (dispatch_lem now row lab_id s h fine).0;
  table = λ row lab_id s h _ fine.
      let (_, rows, servers) = dispatch_lem now row lab_id s h fine in (rows, servers);
  same_id = λ s row r. ground arith;
  same_server = λ s row r. ground arith;
  same_ok = λ s row r. ground arith;
  not_bad = λ s row h k. ground (arith, h, k);
}

-- What reaping a row makes of the rows with its key.
abbrev pub reaped : (seen given_up : Bool) → Instant → Option Text → Reservation → Reservation
reaped true given_up now username r = set_dispatch_started none r
reaped false true now username r = set_failed (codes "dispatch_3x_failed_after_60s") r
reaped false false now none r = r
reaped false false now (some username) r = set_dispatch_started (some now) r

module _ (now : Instant) (row : Reservation) (lab_id : ℕ) (s : Session) where
  abbrev seen : Bool
  seen = lifecycle_started_seen row.id s.audits

  abbrev given_up : Bool
  given_up = leb watchdog_max_dispatch_attempts (count_dispatch_failures row.id s.audits)

  abbrev next : Bool → Bool → Option Text → Exec (List Dispatch)
  next b c username =
      if b
      then heal row
      else if c
      then give_up now row lab_id
      else retry now row lab_id (count_dispatch_failures row.id s.audits) username

  reap_lem :
      is_stuck now row ≡ true
      → runs_nothing row ≡ false
      → every row_ok
          (update row.id (reaped seen given_up now (linux_username_of s row)) s.reservations)
        ≡ true
      → ((a : List Dispatch) × ((reap now row lab_id s).0 ≡ ok a))
        × ((reap now row lab_id s).1.reservations
            ≡ update row.id (reaped seen given_up now (linux_username_of s row)) s.reservations)
        × ((reap now row lab_id s).1.servers ≡ s.servers)
  unfolding reap heal give_up retry transition_to_failed flush
  reap_lem h well fine = go seen given_up (linux_username_of s row) row.script refl fine
    where
      go :
          (b c : Bool) (username : Option Text) (script : Option Text)
          → row.script ≡ script
          → every row_ok (update row.id (reaped b c now username) s.reservations) ≡ true
          → ((a : List Dispatch) × ((next b c username s).0 ≡ ok a))
            × ((next b c username s).1.reservations
                ≡ update row.id (reaped b c now username) s.reservations)
            × ((next b c username s).1.servers ≡ s.servers)
      go true c username script e fine =
          (([], ground (arith, fine)), ground (arith, fine), ground (arith, fine))
      go false true username script e fine =
          let (returned, rows, servers) =
            report_transition-quiet row (set_failed (codes "dispatch_3x_failed_after_60s") row)
              (transition_audit row Status.failed Trigger.scheduler_watchdog_dispatch_giveup now
                lab_id true (some (codes "dispatch_3x_failed_after_60s")))
              NotificationType.reservation_failed Severity.warn
              (record s {
                reservations =
                    update row.id (set_failed (codes "dispatch_3x_failed_after_60s"))
                      s.reservations;
              }) in
          (
            ([], ground (arith, h, fine, returned)),
            ground (arith, h, fine, returned, rows),
            ground (arith, h, fine, returned, servers),
          )
      go false false none script e fine =
          (([], refl), sym (update-same row.id s.reservations), refl)
      go false false (some username) none e fine = ground (arith, h, well, e)
      go false false (some username) (some script) e fine = (
        (
          record {
            reservation_id = row.id;
            server_id = row.server_id;
            linux_username = username;
            script = script;
            max_runtime_seconds = row.script_max_runtime_seconds;
          }
              ∷ [],
          ground (arith, e, fine),
        ),
        ground (arith, e, fine),
        ground (arith, e, fine),
      )

pub reap-Round :
    (now : Instant)
    → Round
        (is_stuck now)
        runs_nothing
        (λ s row.
          reaped
            (lifecycle_started_seen row.id s.audits)
            (leb watchdog_max_dispatch_attempts (count_dispatch_failures row.id s.audits))
            now
            (linux_username_of s row))
        (reap now)
unfolding row_ok
reap-Round now = record {
  returns = λ row lab_id s h well fine. (reap_lem now row lab_id s h well fine).0;
  table = λ row lab_id s h well fine.
      let (_, rows, servers) = reap_lem now row lab_id s h well fine in (rows, servers);
  same_id = λ s row r. ground arith;
  same_server = λ s row r. ground arith;
  same_ok = λ s row r. ground arith;
  not_bad = λ s row h k. ground (arith, h, k);
}
