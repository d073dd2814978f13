-- ===== src/Scheduler/Tick.antt =====
-- One transactional pass of the tick (`_tick_body`). A loop goes over the primary keys that its
-- SELECT returned and reads each object from the session's identity map.
use core_lab.Prelude.{
  ℕ, Bool, false, ◌&&◌, ◌||◌, Option, none, some, List, [], ◌∷◌, ◌++◌, map, leb, is_some, is_none,
  select, if◌then◌else◌,
}
use core_lab.Data.Status.{Status, ScriptStatus, status_eq, is_script}
use core_lab.Data.Row.{Text, Instant, Reservation}
use core_lab.Data.Error.{assertion_error}
use core_lab.Session.Tables.{Session, Trigger}
use core_lab.Session.Exec.{Exec, ◌>>=◌, ◌>>◌, pure, raise, gets, get_row}
use core_lab.Session.Write.{codes}
use core_lab.Lifecycle.Transition.{
  transition_to_active, transition_to_completed, transition_to_failed,
}
use core_lab.Lifecycle.Script.{mark_script_dispatched}

-- `_server_lab_id`
unfoldable pub server_lab_id : Session → ℕ → Option ℕ
server_lab_id s server_id = elim (s.servers server_id) [
  | none ↦ none
  | some server ↦ some server.lab_id
]

abbrev pub keys : (Reservation → Bool) → Session → List ℕ
keys test s = map (λ r. r.id) (select test s.reservations)

-- `for row in rows: lab_id = ...; if lab_id is None: continue; body`. The rounds' results are
-- collected; the source counts them, or queues them.
abbrev pub on_row :
    {A : Type 0} → (Reservation → ℕ → Exec (List A)) → Option Reservation → Option ℕ → Exec (List A)
on_row body none lab = pure []
on_row body (some row) none = pure []
on_row body (some row) (some lab_id) = body row lab_id

abbrev pub lab_of : Session → Option Reservation → Option ℕ
lab_of s none = none
lab_of s (some row) = server_lab_id s row.server_id

unfoldable pub for_row : {A : Type 0} → (Reservation → ℕ → Exec (List A)) → ℕ → Exec (List A)
for_row body n = do row ← get_row n; lab ← gets (λ s. lab_of s row); on_row body row lab

unfoldable pub for_rows : {A : Type 0} → (Reservation → ℕ → Exec (List A)) → List ℕ → Exec (List A)
for_rows body [] = pure []
for_rows body (n ∷ ns) = do here ← for_row body n; rest ← for_rows body ns; pure (here ++ rest)

abbrev pub is_due : Instant → Reservation → Bool
is_due now r = status_eq r.status Status.scheduled && leb r.start_at now

unfoldable pub promote : Instant → Reservation → ℕ → Exec (List ℕ)
promote now row lab_id = do
  transition_to_active row lab_id Trigger.scheduler_start_at now
  pure (row.id ∷ [])

-- `_promote_due_scheduled`
unfoldable pub promote_due_scheduled : Instant → Exec (List ℕ)
promote_due_scheduled now = do ns ← gets (keys (is_due now)); for_rows (promote now) ns

abbrev pub is_over : Instant → Reservation → Bool
is_over now r = status_eq r.status Status.active && leb r.end_at now

-- f"script_{row.script_status}"
abbrev pub script_reason : Option ScriptStatus → Text
script_reason (some ScriptStatus.failed) = codes "script_failed"
script_reason (some ScriptStatus.killed) = codes "script_killed"
script_reason _ = []

abbrev pub script_broken : Reservation → Bool
script_broken r =
    is_script ScriptStatus.failed r.script_status || is_script ScriptStatus.killed r.script_status

unfoldable pub close : Instant → Reservation → ℕ → Exec (List ℕ)
close now row lab_id = do
  if script_broken row
      then transition_to_failed row lab_id (script_reason row.script_status)
          Trigger.scheduler_end_at now
      else transition_to_completed row lab_id Trigger.scheduler_end_at now
  pure (row.id ∷ [])

-- `_close_due_active`
unfoldable pub close_due_active : Instant → Exec (List ℕ)
close_due_active now = do ns ← gets (keys (is_over now)); for_rows (close now) ns

-- The RPC of one dispatch (`_build_execute_payload`).
pub record Dispatch : Type 0 where
  pub reservation_id : ℕ
  pub server_id : ℕ
  pub linux_username : Text
  pub script : Text
  pub max_runtime_seconds : Option ℕ

abbrev pub build_execute_payload : Reservation → Text → Option Text → Exec Dispatch
build_execute_payload row username none = raise assertion_error
build_execute_payload row username (some script) = pure (record {
  reservation_id = row.id;
  server_id = row.server_id;
  linux_username = username;
  script = script;
  max_runtime_seconds = row.script_max_runtime_seconds;
})

-- The Linux account behind a reservation's link, by the two joins.
unfoldable pub linux_username_of : Session → Reservation → Option Text
linux_username_of s row = elim (s.links row.account_link_id) [
  | none ↦ none
  | some link ↦ s.linux_usernames link.physical_account_id
]

abbrev starts_by : Instant → Option Instant → Bool
starts_by now none = false
starts_by now (some t) = leb t now

abbrev pub is_dispatchable : Instant → Reservation → Bool
is_dispatchable now r =
    (status_eq r.status Status.active && is_some r.script)
    && (starts_by now r.script_scheduled_start_at && is_none r.script_status)

unfoldable pub dispatch_to : Instant → Reservation → ℕ → Option Text → Exec (List Dispatch)
dispatch_to now row lab_id none = pure []
dispatch_to now row lab_id (some username) = do
  mark_script_dispatched row lab_id now
  payload ← build_execute_payload row username row.script
  pure (payload ∷ [])

unfoldable pub dispatch : Instant → Reservation → ℕ → Exec (List Dispatch)
unfolding dispatch_to
dispatch now row lab_id = do
  username ← gets (λ s. linux_username_of s row)
  dispatch_to now row lab_id username

-- `_dispatch_due_scripts`
unfoldable pub dispatch_due_scripts : Instant → Exec (List Dispatch)
dispatch_due_scripts now = do ns ← gets (keys (is_dispatchable now)); for_rows (dispatch now) ns
