-- ===== src/Booking/Create.antt =====
-- `create_reservation_batch`: every check against the tables as they stand, then one row for each
-- item.
pub mod Run
pub mod Script
pub mod Effects
use core_lab.Prelude.{
  ℕ, suc, ◌+◌, Bool, true, false, ◌||◌, not, Option, none, some, List, [], ◌∷◌, ◌++◌, length,
  is_empty, is_some, first_some, if◌then◌else◌,
}
use core_lab.Data.Status.{Status}
use core_lab.Data.Row.{Text, Instant, Reservation, Gpu, ItemDraft}
use core_lab.Data.Error.{Check, Error, ok, err, require, ◌and_then◌, for_each}
use core_lab.Session.Tables.{Session, AuditEvent, Change}
use core_lab.Session.Exec.{Exec, ◌>>=◌, ◌>>◌, pure, query, gets, modify, flush}
use core_lab.Session.Write.{write_audit, push_lifecycle}
use core_lab.Booking.Conflict.{Conflict, classify_conflict, window_active_reservations}
use core_lab.Booking.Validate.{script_size, item_shape, validate_item}

pub record BatchRequest : Type 0 where
  pub items : List ItemDraft
  pub user_id : ℕ
  pub lab_id : ℕ
  pub script : Option Text
  pub script_scheduled_start_at : Option Instant
  pub script_max_runtime_seconds : Option ℕ
  pub share_script : Bool
  pub now : Instant

-- The exception for a conflict. The last two kinds do not come from the conflict matrix.
unfoldable pub raise_conflict : Option Conflict → Check
raise_conflict none = ok tt
raise_conflict (some (Conflict.exclusive_conflict rows)) = err (Error.overlap rows)
raise_conflict (some (Conflict.mix_exclusive_shared rows)) = err (Error.mix_exclusive_shared rows)
raise_conflict (some (Conflict.memory_exceeded used would total rows)) =
    err (Error.memory_exceeded used would total rows)
raise_conflict (some (Conflict.compute_exceeded used would rows)) =
    err (Error.compute_exceeded used would rows)
raise_conflict (some (Conflict.time_too_long max_hours requested)) = ok tt
raise_conflict (some Conflict.invalid_time) = ok tt

gpu_conflict : Session → ItemDraft → ℕ → Option Gpu → Check
unfolding raise_conflict
gpu_conflict s item g none = err Error.invalid_time
gpu_conflict s item g (some gpu) = raise_conflict (
    classify_conflict item (window_active_reservations g item.start_at item.end_at s.reservations)
      gpu)

item_conflict : Session → ItemDraft → Option ℕ → Check
unfolding gpu_conflict
item_conflict s item none = ok tt
item_conflict s item (some g) = gpu_conflict s item g (s.gpus g)

-- One round of the conflict check.
unfoldable pub check_conflict : Session → ItemDraft → Check
unfolding item_conflict
check_conflict s item = item_conflict s item item.gpu_id

-- Everything that may refuse a batch.
unfoldable pub check_batch : BatchRequest → Session → Check
check_batch req s =
    require (not (is_empty req.items)) Error.invalid_time
    and_then script_size req.script
    and_then for_each (item_shape req.script) req.items
    and_then for_each (validate_item s req.now req.user_id req.script_scheduled_start_at) req.items
    and_then for_each (check_conflict s) req.items

-- `if carry_script`: an empty text counts as no script.
abbrev truthy : Option Text → Bool
truthy none = false
truthy (some text) = not (is_empty text)

-- The row of one item, which carries the script or not.
unfoldable pub row_of : BatchRequest → ℕ → ℕ → Option Text → ItemDraft → Reservation
row_of req group_id n carry_script item = record {
  id = n;
  user_id = req.user_id;
  server_id = item.server_id;
  gpu_id = item.gpu_id;
  account_link_id = item.account_link_id;
  group_id = group_id;
  start_at = item.start_at;
  end_at = item.end_at;
  status = Status.scheduled;
  gpu_memory_mb = item.gpu_memory_mb;
  gpu_compute_share_pct = item.gpu_compute_share_pct;
  script = carry_script;
  script_scheduled_start_at =
      if truthy carry_script
      then first_some req.script_scheduled_start_at (some item.start_at)
      else none;
  script_max_runtime_seconds = if truthy carry_script then req.script_max_runtime_seconds else none;
  script_started_at = none;
  script_finished_at = none;
  script_exit_code = none;
  script_output_size_bytes = none;
  script_log_path = none;
  script_log_tail_text = none;
  script_log_tail_truncated = false;
  script_status = none;
  script_dispatch_started_at = none;
  cancelled_at = none;
  cancelled_by_user_id = none;
  cancellation_reason = none;
}

-- The rows of a batch, from the index `first` (true for item 0) and the next primary key on.
unfoldable pub rows_of : BatchRequest → ℕ → Bool → ℕ → List ItemDraft → List Reservation
unfolding row_of
rows_of req group_id first n [] = []
rows_of req group_id first n (item ∷ items) =
    row_of req group_id n (if req.share_script || first then req.script else none) item
    ∷ rows_of req group_id false (suc n) items

created_event : Reservation → AuditEvent
created_event row =
    AuditEvent.created row.gpu_id row.start_at row.end_at row.account_link_id row.group_id
      row.gpu_memory_mb row.gpu_compute_share_pct (is_some row.script)

-- The audit row and the frame of each new row.
pub announce : BatchRequest → List Reservation → Exec (Unit {0})
unfolding created_event
announce req [] = pure tt
announce req (row ∷ rows) = do
  write_audit (record {
    event = created_event row;
    actor_user_id = some req.user_id;
    lab_id = some req.lab_id;
    target_id = some row.id;
    target_server_id = some row.server_id;
  })
  push_lifecycle row Change.created
  announce req rows

-- `group_id` is the UUID that the call draws.
unfoldable pub create_reservation_batch : BatchRequest → ℕ → Exec (List Reservation)
unfolding announce
create_reservation_batch req group_id = do
  query (check_batch req)
  n ← gets (λ s. s.next_id)
  let rows = rows_of req group_id true n req.items
  modify
      (λ s. record s { reservations = s.reservations ++ rows; next_id = s.next_id + length rows })
  flush
  announce req rows
  pure rows
