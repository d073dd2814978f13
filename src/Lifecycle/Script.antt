-- ===== src/Lifecycle/Script.antt =====
-- The script columns: `update_script_status`, `mark_script_dispatched` and the log tail.
use core_lab.Prelude.{
  ℕ, ◌-◌, Bool, true, false, Option, none, some, [], ◌++◌, drop, length, ltb, ◌==◌, or_else,
  first_some, is_none, is_empty, if◌then◌else◌,
}
use core_lab.Data.Status.{
  Status, ScriptStatus, status_eq, script_eq, script_in, allowed_script_transitions,
}
use core_lab.Data.Row.{Text, Instant, ℤ, Reservation}
use core_lab.Data.Error.{Error}
use core_lab.Session.Tables.{AuditEvent, Trigger}
use core_lab.Session.Exec.{Exec, ◌>>◌, pure, guard, assign, flush}
use core_lab.Session.Write.{write_audit}

abbrev is_terminal : ScriptStatus → Bool
is_terminal ScriptStatus.running = false
is_terminal ScriptStatus.completed = true
is_terminal ScriptStatus.failed = true
is_terminal ScriptStatus.killed = true

-- The columns that `update_script_status` assigns. `Reservation.status` stays as it is.
abbrev pub set_script :
    ScriptStatus → Option ℤ → Option Instant → Option Instant → Reservation → Reservation
set_script target exit_code started_at finished_at r = record r {
  script_status = some target;
  script_started_at =
      if script_eq target ScriptStatus.running
      then first_some started_at r.script_started_at
      else r.script_started_at;
  script_finished_at =
      if is_terminal target
      then first_some finished_at r.script_finished_at
      else r.script_finished_at;
  script_exit_code =
      if is_terminal target then first_some exit_code r.script_exit_code else r.script_exit_code;
}

unfoldable pub update_script_status :
    Reservation
    → ScriptStatus
    → ℕ
    → Trigger
    → Option ℤ
    → Option Instant
    → Option Instant
    → Exec (Unit {0})
update_script_status row target lab_id trigger exit_code started_at finished_at = do
  guard (script_in target (allowed_script_transitions row.script_status))
      (Error.illegal_script_transition row.script_status target)
  assign row.id (set_script target exit_code started_at finished_at)
  flush
  write_audit (record {
    event = AuditEvent.script_changed row.script_status target trigger exit_code;
    actor_user_id = none;
    lab_id = some lab_id;
    target_id = some row.id;
    target_server_id = some row.server_id;
  })

abbrev pub set_dispatched : Instant → Reservation → Reservation
set_dispatched now r = record r {
  script_status = some ScriptStatus.running;
  script_dispatch_started_at = some now;
}

unfoldable pub mark_script_dispatched : Reservation → ℕ → Instant → Exec (Unit {0})
mark_script_dispatched row lab_id now = do
  guard (status_eq row.status Status.active) (Error.not_dispatchable row.status)
  guard (is_none row.script_status)
      (Error.illegal_script_transition row.script_status ScriptStatus.running)
  assign row.id (set_dispatched now)
  flush
  write_audit (record {
    event = AuditEvent.script_dispatched now;
    actor_user_id = none;
    lab_id = some lab_id;
    target_id = some row.id;
    target_server_id = some row.server_id;
  })

abbrev pub script_log_tail_max_chars : ℕ
script_log_tail_max_chars = 65536

-- `text[-n:]`, which is the whole text where n is 0.
unfoldable pub last_chars : ℕ → Text → Text
last_chars n text = if n == 0 then text else drop (length text - n) text

-- The tail and its flag after one more chunk.
unfoldable pub append_tail : ℕ → Text → Reservation → Reservation
append_tail max_chars text r =
    let combined = or_else [] r.script_log_tail_text ++ text in
    if ltb max_chars (length combined)
    then record r {
      script_log_tail_text = some (last_chars max_chars combined);
      script_log_tail_truncated = true;
    }
    else record r { script_log_tail_text = some combined }

unfoldable pub append_script_log_tail : Reservation → Text → ℕ → Exec (Unit {0})
append_script_log_tail row text max_chars =
    if is_empty text then pure tt else do assign row.id (append_tail max_chars text); flush
