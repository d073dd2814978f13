-- ===== src/Booking/Modify.antt =====
-- `modify_reservation`: the row is edited in place, and the checks follow the edit.

pub mod Effects
pub mod Run
use core_lab.Prelude.{
  ℕ, Bool, true, false, ◌&&◌, ◌||◌, not, Option, none, some, List, [], ◌∷◌, ◌++◌, ◌==◌, ltb, leb,
  length, is_some, is_none, or_else, select, if◌then◌else◌,
}
use core_lab.Data.Status.{Status, status_eq}
use core_lab.Data.Row.{Text, Instant, Reservation, Gpu, ItemDraft}
use core_lab.Data.Error.{Check, Error, Result, ok, err, require, ◌and_then◌}
use core_lab.Session.Tables.{Session, AuditEvent, Field, find}
use core_lab.Session.Exec.{
  Exec, ◌>>=◌, ◌>>◌, pure, raise, guard, query, gets, assign, get_row, flush,
}
use core_lab.Session.Write.{write_audit}
use core_lab.Booking.Conflict.{Conflict, classify_conflict, window_active_reservations, ids}
use core_lab.Booking.Validate.{script_size, validate_item_time}

pub record Edit : Type 0 where
  pub reservation_id : ℕ
  pub actor_user_id : ℕ
  pub new_start_at : Option Instant
  pub new_end_at : Option Instant
  pub new_script : Option Text
  pub new_script_scheduled_start_at : Option Instant
  pub new_script_max_runtime_seconds : Option ℕ
  pub lab_id : ℕ
  pub now : Instant

abbrev timing_edit : Edit → Bool
timing_edit e = is_some e.new_script_scheduled_start_at || is_some e.new_script_max_runtime_seconds

abbrev pub window_edit : Edit → Bool
window_edit e = is_some e.new_start_at || is_some e.new_end_at

-- The guards on the locked row, before anything is written.
unfoldable pub may_edit : Edit → Reservation → Check
may_edit e row =
    require (status_eq row.status Status.scheduled) Error.reservation_error
    and_then require (row.user_id == e.actor_user_id) Error.cancel_not_permitted
    and_then require
        (not
          (timing_edit e && (is_some row.script_status || is_some row.script_dispatch_started_at)))
        Error.reservation_error

-- `row.start_at = new_start_at`, `row.end_at = new_end_at`, where they are given.
abbrev pub move_window : Edit → Reservation → Reservation
move_window e row = record row {
  start_at = or_else row.start_at e.new_start_at;
  end_at = or_else row.end_at e.new_end_at;
}

-- The item whose checks the edited row has to pass.
abbrev pub draft_of : Reservation → ItemDraft
draft_of row = record {
  server_id = row.server_id;
  gpu_id = row.gpu_id;
  start_at = row.start_at;
  end_at = row.end_at;
  account_link_id = row.account_link_id;
  gpu_memory_mb = row.gpu_memory_mb;
  gpu_compute_share_pct = row.gpu_compute_share_pct;
}

-- The rows with another primary key.
abbrev pub others : ℕ → List Reservation → List Reservation
others n = select (λ r. not (r.id == n))

abbrev conflicting_ids : Conflict → List ℕ
conflicting_ids (Conflict.exclusive_conflict rows) = rows
conflicting_ids (Conflict.mix_exclusive_shared rows) = rows
conflicting_ids (Conflict.memory_exceeded used would total rows) = rows
conflicting_ids (Conflict.compute_exceeded used would rows) = rows
conflicting_ids (Conflict.time_too_long max_hours requested) = []
conflicting_ids Conflict.invalid_time = []

overlap_of : Option Conflict → Check
overlap_of none = ok tt
overlap_of (some c) = err (Error.overlap (conflicting_ids c))

gpu_free : Session → Reservation → ℕ → Option Gpu → Check
unfolding overlap_of
gpu_free s row g none = err Error.invalid_time
gpu_free s row g (some gpu) = overlap_of (
    classify_conflict (draft_of row)
      (others row.id (window_active_reservations g row.start_at row.end_at s.reservations)) gpu)

conflict_free : Session → Reservation → Option ℕ → Check
unfolding gpu_free
conflict_free s row none = ok tt
conflict_free s row (some g) = gpu_free s row g (s.gpus g)

-- The checks of a window that has been edited, against the other rows.
unfoldable pub check_window : Edit → Reservation → Session → Check
unfolding conflict_free
check_window e row s =
    if window_edit e
    then validate_item_time s e.now (draft_of row) and_then conflict_free s row row.gpu_id
    else ok tt

-- The script, which starts with the window where no start was ever given.
abbrev pub edit_script : Edit → Reservation → Reservation
edit_script e row =
    if is_some e.new_script
    then record row {
      script = e.new_script;
      script_scheduled_start_at =
          if is_none row.script_scheduled_start_at && is_none e.new_script_scheduled_start_at
          then some row.start_at
          else row.script_scheduled_start_at;
    }
    else row

script_start_in : Option Instant → Reservation → Check
script_start_in none row = ok tt
script_start_in (some t) row = require (leb row.start_at t && ltb t row.end_at) Error.invalid_time

abbrev edit_script_start : Edit → Reservation → Reservation
edit_script_start e row =
    if is_some e.new_script_scheduled_start_at
    then record row { script_scheduled_start_at = e.new_script_scheduled_start_at }
    else row

abbrev edit_runtime : Edit → Reservation → Reservation
edit_runtime e row =
    if is_some e.new_script_max_runtime_seconds
    then record row { script_max_runtime_seconds = e.new_script_max_runtime_seconds }
    else row

abbrev field_if : Bool → Field → List Field → List Field
field_if b f rest = if b then f ∷ rest else rest

-- `fields_changed` of the audit payload.
pub fields_changed : Edit → List Field
fields_changed e = field_if (is_some e.new_start_at) Field.start_at (
    field_if (is_some e.new_end_at) Field.end_at (
      field_if (is_some e.new_script) Field.script (
        field_if (is_some e.new_script_scheduled_start_at) Field.script_scheduled_start_at (
          field_if (is_some e.new_script_max_runtime_seconds) Field.script_max_runtime_seconds
            []))))

-- The writes and checks that follow the guards, in the source's order.
unfoldable pub edit_row : Edit → Reservation → Exec Reservation
unfolding script_start_in
edit_row e row = do
  let moved = move_window e row
  assign row.id (λ r. moved)
  query (check_window e moved)
  query (λ s. script_size e.new_script)
  let scripted = edit_script e moved
  assign row.id (λ r. scripted)
  query (λ s. script_start_in e.new_script_scheduled_start_at scripted)
  let edited = edit_runtime e (edit_script_start e scripted)
  assign row.id (λ r. edited)
  flush
  write_audit (record {
    event = AuditEvent.modified (fields_changed e);
    actor_user_id = some e.actor_user_id;
    lab_id = some e.lab_id;
    target_id = some row.id;
    target_server_id = some row.server_id;
  })
  pure edited

unfoldable pub edit_locked : Edit → Option Reservation → Exec Reservation
unfolding edit_row
edit_locked e none = raise Error.reservation_not_found
edit_locked e (some row) = do query (λ s. may_edit e row); edit_row e row

unfoldable pub modify_reservation : Edit → Exec Reservation
unfolding edit_locked
modify_reservation e = do row ← get_row e.reservation_id; edit_locked e row
