-- ===== src/Scheduler/Watchdog.antt =====
-- The watchdog of stuck dispatches (`_retry_stuck_dispatches`) and the whole tick.
use core_lab.Prelude.{
  ℕ, ◌+◌, ◌-◌, Bool, true, false, ◌&&◌, Option, none, some, List, [], ◌∷◌, ltb, leb, is_id, length,
  select, some_of, if◌then◌else◌,
}
use core_lab.Data.Status.{Status, ScriptStatus, status_eq, is_script}
use core_lab.Data.Row.{Text, Instant, seconds, Reservation}
use core_lab.Data.Error.{Result, ok, err}
use core_lab.Session.Tables.{Session, AuditEvent, AuditLog, Trigger}
use core_lab.Session.Exec.{Exec, ◌>>=◌, ◌>>◌, pure, gets, assign, flush}
use core_lab.Session.Write.{codes, write_audit}
use core_lab.Lifecycle.Transition.{transition_to_failed}
use core_lab.Scheduler.Tick.{
  keys, for_rows, Dispatch, build_execute_payload, linux_username_of, promote_due_scheduled,
  close_due_active, dispatch_due_scripts,
}

abbrev pub watchdog_stuck_seconds : ℕ
watchdog_stuck_seconds = 60

abbrev pub watchdog_max_dispatch_attempts : ℕ
watchdog_max_dispatch_attempts = 3

abbrev is_dispatch_failure : AuditEvent → Bool
is_dispatch_failure AuditEvent.dispatch_failed = true
is_dispatch_failure _ = false

abbrev is_ack : AuditEvent → Bool
is_ack (AuditEvent.script_acked pid log_path started_at) = true
is_ack _ = false

-- `_count_dispatch_failures`
unfoldable pub count_dispatch_failures : ℕ → List AuditLog → ℕ
count_dispatch_failures n audits =
    length (select (λ a. is_dispatch_failure a.event && is_id n a.target_id) audits)

-- `_lifecycle_started_seen`
unfoldable pub lifecycle_started_seen : ℕ → List AuditLog → Bool
lifecycle_started_seen n audits = some_of (λ a. is_ack a.event && is_id n a.target_id) audits

abbrev dispatched_before : Instant → Option Instant → Bool
dispatched_before cutoff none = false
dispatched_before cutoff (some t) = ltb t cutoff

abbrev pub is_stuck : Instant → Reservation → Bool
is_stuck now r =
    (status_eq r.status Status.active && is_script ScriptStatus.running r.script_status)
    && dispatched_before (now - seconds watchdog_stuck_seconds) r.script_dispatch_started_at

abbrev pub set_dispatch_started : Option Instant → Reservation → Reservation
set_dispatch_started at r = record r { script_dispatch_started_at = at }

unfoldable pub retry : Instant → Reservation → ℕ → ℕ → Option Text → Exec (List Dispatch)
retry now row lab_id attempts none = pure []
retry now row lab_id attempts (some username) = do
  payload ← build_execute_payload row username row.script
  assign row.id (set_dispatch_started (some now))
  flush
  write_audit (record {
    event = AuditEvent.dispatch_retried (attempts + 1) now;
    actor_user_id = none;
    lab_id = some lab_id;
    target_id = some row.id;
    target_server_id = some row.server_id;
  })
  pure (payload ∷ [])

unfoldable pub heal : Reservation → Exec (List Dispatch)
heal row = do assign row.id (set_dispatch_started none); flush; pure []

unfoldable pub give_up : Instant → Reservation → ℕ → Exec (List Dispatch)
give_up now row lab_id = do
  transition_to_failed row lab_id (codes "dispatch_3x_failed_after_60s")
      Trigger.scheduler_watchdog_dispatch_giveup now
  pure []

-- One round: the agent did start, or the attempts are used up, or the RPC is sent again.
unfoldable pub reap : Instant → Reservation → ℕ → Exec (List Dispatch)
unfolding retry heal give_up
reap now row lab_id = do
  seen ← gets (λ s. lifecycle_started_seen row.id s.audits)
  attempts ← gets (λ s. count_dispatch_failures row.id s.audits)
  username ← gets (λ s. linux_username_of s row)
  if seen
      then heal row
      else if leb watchdog_max_dispatch_attempts attempts
      then give_up now row lab_id
      else retry now row lab_id attempts username

-- `_retry_stuck_dispatches`
unfoldable pub retry_stuck_dispatches : Instant → Exec (List Dispatch)
retry_stuck_dispatches now = do ns ← gets (keys (is_stuck now)); for_rows (reap now) ns

pub record Pending : Type 0 where
  pub dispatches : List Dispatch
  pub retries : List Dispatch

-- The four actions of a tick, in order.
unfoldable pub tick_actions : Instant → Exec Pending
tick_actions now = do
  promoted ← promote_due_scheduled now
  closed ← close_due_active now
  dispatches ← dispatch_due_scripts now
  retries ← retry_stuck_dispatches now
  pure (record { dispatches = dispatches; retries = retries })

abbrev pub settle : {A : Type 0} → Session → Result A × Session → Result A × Session
settle s (ok a, s') = (ok a, s')
settle s (err e, s') = (err e, s)

-- `async with session.begin()`: an exception rolls the transaction back.
abbrev pub transaction : {A : Type 0} → Exec A → Exec A
transaction m s = settle s (m s)

-- `_tick_body`
unfoldable pub tick_body : Exec Pending
tick_body s = transaction (tick_actions s.clock) s
