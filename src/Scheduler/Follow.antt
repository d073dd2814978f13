-- ===== src/Scheduler/Follow.antt =====
-- A tick, and the state machines of the rows.
use core_lab.Prelude.{
  ℕ, ◌+◌, ◌≡◌, refl, Option, none, some, List, [], ◌∷◌, ◌++◌, leb, if◌then◌else◌,
}
use core_lab.Data.Row.{Text, Instant, Reservation}
use core_lab.Data.Error.{Result, ok, err}
use core_lab.Session.Tables.{Session, AuditEvent, Trigger, find}
use core_lab.Session.Exec.{Exec, pure, assign, flush, ◌>>=◌, ◌>>◌}
use core_lab.Session.Rule.{Takes, bind-Takes, if-Takes}
use core_lab.Session.Write.{codes, write_audit}
use core_lab.Lifecycle.Transition.{
  transition_to_active, transition_to_completed, transition_to_failed,
}
use core_lab.Lifecycle.Script.{mark_script_dispatched}
use core_lab.Lifecycle.Moves.{Follows-same, Moves, Moves-refl}
use core_lab.Lifecycle.Follow.{
  transition_to_active-Moves, transition_to_completed-Moves, transition_to_failed-Moves,
  mark_script_dispatched-Moves,
}
use core_lab.Lifecycle.FollowEvents.{compose-Moves, flushed-Moves, Found, lookup-Found}
use core_lab.Scheduler.Tick.{
  keys, lab_of, on_row, for_row, for_rows, promote, promote_due_scheduled, close, close_due_active,
  script_broken, script_reason, Dispatch, build_execute_payload, linux_username_of, dispatch_to,
  dispatch, dispatch_due_scripts, is_due, is_over, is_dispatchable,
}
use core_lab.Scheduler.Watchdog.{
  reap, retry, heal, give_up, retry_stuck_dispatches, is_stuck, tick_actions, settle, tick_body,
  set_dispatch_started, lifecycle_started_seen, count_dispatch_failures,
  watchdog_max_dispatch_attempts,
}

-- A round of a loop that follows them from the row that it is given.
abbrev Round : {A : Type 0} → (Reservation → ℕ → Exec (List A)) → Type 0
Round body =
    (row : Reservation) (lab_id : ℕ) (s : Session)
    → find row.id s.reservations ≡ some row
    → Takes Moves (body row lab_id) s

on_row-Moves :
    {A : Type 0} (body : Reservation → ℕ → Exec (List A)) (o : Option Reservation) (lab : Option ℕ)
    (s : Session)
    → Round body
    → Found s o
    → Takes Moves (on_row body o lab) s
on_row-Moves body none lab s round f = Moves-refl s.reservations
on_row-Moves body (some row) none s round f = Moves-refl s.reservations
on_row-Moves body (some row) (some lab_id) s round f = round row lab_id s (f row refl)

for_row-Moves :
    {A : Type 0} (body : Reservation → ℕ → Exec (List A)) (n : ℕ) (s : Session)
    → Round body
    → Takes Moves (for_row body n) s
unfolding for_row
for_row-Moves body n s round =
    on_row-Moves body (find n s.reservations) (lab_of s (find n s.reservations)) s round
      (lookup-Found n s)

for_rows-Moves :
    {A : Type 0} (body : Reservation → ℕ → Exec (List A)) (ns : List ℕ) (s : Session)
    → Round body
    → Takes Moves (for_rows body ns) s
unfolding for_rows
for_rows-Moves body [] s round = Moves-refl s.reservations
for_rows-Moves body (n ∷ ns) s round =
    bind-Takes Moves compose-Moves (for_row body n)
      (λ here. do rest ← for_rows body ns; pure (here ++ rest)) s (for_row-Moves body n s round)
      (λ here s₁ _.
        bind-Takes Moves compose-Moves (for_rows body ns) (λ rest. pure (here ++ rest)) s₁
          (for_rows-Moves body ns s₁ round) (λ rest s₂ _. Moves-refl s₂.reservations))

promote-Moves : (now : Instant) → Round (promote now)
unfolding promote
promote-Moves now row lab_id s found =
    bind-Takes Moves compose-Moves (transition_to_active row lab_id Trigger.scheduler_start_at now)
      (λ _. pure (row.id ∷ [])) s
      (transition_to_active-Moves row lab_id s found Trigger.scheduler_start_at now)
      (λ _ s₁ _. Moves-refl s₁.reservations)

close-Moves : (now : Instant) → Round (close now)
unfolding close
close-Moves now row lab_id s found =
    bind-Takes Moves compose-Moves
      (if script_broken row
        then transition_to_failed row lab_id (script_reason row.script_status)
            Trigger.scheduler_end_at now
        else transition_to_completed row lab_id Trigger.scheduler_end_at now)
      (λ _. pure (row.id ∷ [])) s
      (if-Takes Moves (script_broken row)
        (transition_to_failed row lab_id (script_reason row.script_status) Trigger.scheduler_end_at
          now)
        (transition_to_completed row lab_id Trigger.scheduler_end_at now) s
        (transition_to_failed-Moves row lab_id s found (script_reason row.script_status)
          Trigger.scheduler_end_at now)
        (transition_to_completed-Moves row lab_id s found Trigger.scheduler_end_at now))
      (λ _ s₁ _. Moves-refl s₁.reservations)

build_execute_payload-Moves :
    (row : Reservation) (username : Text) (script : Option Text) (s : Session)
    → Takes Moves (build_execute_payload row username script) s
build_execute_payload-Moves row username none s = Moves-refl s.reservations
build_execute_payload-Moves row username (some script) s = Moves-refl s.reservations

dispatch_to-Moves :
    (now : Instant) (username : Option Text)
    → Round (λ row lab_id. dispatch_to now row lab_id username)
unfolding dispatch_to
dispatch_to-Moves now none row lab_id s found = Moves-refl s.reservations
dispatch_to-Moves now (some username) row lab_id s found =
    bind-Takes Moves compose-Moves (mark_script_dispatched row lab_id now)
      (λ _. do payload ← build_execute_payload row username row.script; pure (payload ∷ [])) s
      (mark_script_dispatched-Moves row lab_id s found now)
      (λ _ s₁ _.
        bind-Takes Moves compose-Moves (build_execute_payload row username row.script)
          (λ payload. pure (payload ∷ [])) s₁
          (build_execute_payload-Moves row username row.script s₁)
          (λ _ s₂ _. Moves-refl s₂.reservations))

dispatch-Moves : (now : Instant) → Round (dispatch now)
unfolding dispatch
dispatch-Moves now row lab_id s found =
    dispatch_to-Moves now (linux_username_of s row) row lab_id s found

retry-Moves :
    (now : Instant) (attempts : ℕ) (username : Option Text)
    → Round (λ row lab_id. retry now row lab_id attempts username)
unfolding retry
retry-Moves now attempts none row lab_id s found = Moves-refl s.reservations
retry-Moves now attempts (some username) row lab_id s found =
    bind-Takes Moves compose-Moves (build_execute_payload row username row.script)
      (λ payload. do
        assign row.id (set_dispatch_started (some now))
        flush
        write_audit (record {
          event = AuditEvent.dispatch_retried (attempts + 1) now;
          actor_user_id = none;
          lab_id = some lab_id;
          target_id = some row.id;
          target_server_id = some row.server_id;
        })
        pure (payload ∷ []))
      s (build_execute_payload-Moves row username row.script s)
      (λ payload s₁ _.
        flushed-Moves row.id (set_dispatch_started (some now)) _ s₁ (λ r h. h)
          (λ r. Follows-same r (set_dispatch_started (some now) r) refl refl)
          (λ s₂. Moves-refl s₂.reservations))

heal-Moves : Round (λ row _. heal row)
unfolding heal
heal-Moves row lab_id s found =
    flushed-Moves row.id (set_dispatch_started none) (pure []) s (λ r h. h)
      (λ r. Follows-same r (set_dispatch_started none r) refl refl)
      (λ s₁. Moves-refl s₁.reservations)

give_up-Moves : (now : Instant) → Round (give_up now)
unfolding give_up
give_up-Moves now row lab_id s found =
    bind-Takes Moves compose-Moves
      (transition_to_failed row lab_id (codes "dispatch_3x_failed_after_60s")
        Trigger.scheduler_watchdog_dispatch_giveup now)
      (λ _. pure []) s
      (transition_to_failed-Moves row lab_id s found (codes "dispatch_3x_failed_after_60s")
        Trigger.scheduler_watchdog_dispatch_giveup now)
      (λ _ s₁ _. Moves-refl s₁.reservations)

reap-Moves : (now : Instant) → Round (reap now)
unfolding reap
reap-Moves now row lab_id s found =
    if-Takes Moves (lifecycle_started_seen row.id s.audits) (heal row) late s
      (heal-Moves row lab_id s found)
      (if-Takes Moves (leb watchdog_max_dispatch_attempts attempts) (give_up now row lab_id) again s
        (give_up-Moves now row lab_id s found)
        (retry-Moves now attempts (linux_username_of s row) row lab_id s found))
  where
    attempts : ℕ
    attempts = count_dispatch_failures row.id s.audits

    again : Exec (List Dispatch)
    again = retry now row lab_id attempts (linux_username_of s row)

    late : Exec (List Dispatch)
    late = if leb watchdog_max_dispatch_attempts attempts then give_up now row lab_id else again

pub tick_actions-Moves : (now : Instant) (s : Session) → Takes Moves (tick_actions now) s
unfolding tick_actions promote_due_scheduled close_due_active dispatch_due_scripts
    retry_stuck_dispatches
tick_actions-Moves now s =
    bind-Takes Moves compose-Moves (promote_due_scheduled now)
      (λ _. do
        closed ← close_due_active now
        dispatches ← dispatch_due_scripts now
        retries ← retry_stuck_dispatches now
        pure (record { dispatches = dispatches; retries = retries }))
      s (for_rows-Moves (promote now) (keys (is_due now) s) s (promote-Moves now))
      (λ _ s₁ _.
        bind-Takes Moves compose-Moves (close_due_active now)
          (λ _. do
            dispatches ← dispatch_due_scripts now
            retries ← retry_stuck_dispatches now
            pure (record { dispatches = dispatches; retries = retries }))
          s₁ (for_rows-Moves (close now) (keys (is_over now) s₁) s₁ (close-Moves now))
          (λ _ s₂ _.
            bind-Takes Moves compose-Moves (dispatch_due_scripts now)
              (λ dispatches. do
                retries ← retry_stuck_dispatches now
                pure (record { dispatches = dispatches; retries = retries }))
              s₂
              (for_rows-Moves (dispatch now) (keys (is_dispatchable now) s₂) s₂
                (dispatch-Moves now))
              (λ dispatches s₃ _.
                bind-Takes Moves compose-Moves (retry_stuck_dispatches now)
                  (λ retries. pure (record { dispatches = dispatches; retries = retries })) s₃
                  (for_rows-Moves (reap now) (keys (is_stuck now) s₃) s₃ (reap-Moves now))
                  (λ retries s₄ _. Moves-refl s₄.reservations))))

settle-Moves :
    {A : Type 0} (s : Session) (r : Result A) (s' : Session)
    → Moves s.reservations s'.reservations
    → Moves s.reservations (settle s (r, s')).1.reservations
settle-Moves s (ok a) s' h = h
settle-Moves s (err e) s' h = Moves-refl s.reservations

pub tick_body-Moves : (s : Session) → Takes Moves tick_body s
unfolding tick_body
tick_body-Moves s = settle-Moves s _ _ (tick_actions-Moves s.clock s)
