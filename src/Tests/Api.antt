-- ===== src/Tests/Api.antt =====
-- The theorems on requests and pushes, at the sample.
use core_lab.Prelude.{arith, inl, ◌≡◌, refl, true, none, some, List, [], ◌∷◌, every}
use core_lab.Data.Status.{Status}
use core_lab.Data.Row.{Text, Reservation, seconds, row_ok, script_fits, tail_fits}
use core_lab.Data.Error.{Error, ok, err}
use core_lab.Session.Tables.{Session, find, update}
use core_lab.Booking.Conflict.{classify_conflict, window_active_reservations}
use core_lab.Booking.Create.{check_batch, check_conflict, raise_conflict, create_reservation_batch}
use core_lab.Booking.Validate.{
  script_size, item_shape, validate_item, validate_item_time, load_link, script_start_within,
  exceeds_limit,
}
use core_lab.Booking.Modify.{
  edit_locked, edit_row, Edit, may_edit, move_window, check_window, modify_reservation,
}
use core_lab.Booking.Modify.Effects.{put}
use core_lab.Api.Request.{request, settle_request, commit}
use core_lab.Api.History.{Operation, run, run-terminal}
use core_lab.Api.Refusals.{refused_batch-unchanged, refused_edit-stored}
use core_lab.Api.Output.{all_taken, Stored, output-Stored, pushes_of}
use core_lab.Session.Exec.{flush}
use core_lab.Booking.Capacity.Create.{IsSafe}
use core_lab.Booking.Capacity.Modify.{modify-IsSafe}
use core_lab.Tests.{
  today, hour, shared_row, session_with, sample, exclusive_item, request_of, by_owner,
}

-- A day on which the first reservation is cancelled and the scheduler runs twice.
abbrev day : List Operation
day =
    Operation.tick
    ∷ Operation.wait (seconds 7200)
    ∷ Operation.tick
    ∷ Operation.cancel by_owner 1
    ∷ []

abbrev failed_row : Reservation
failed_row = record shared_row { id = 4; status = Status.failed }

failed_found : find 4 (shared_row ∷ failed_row ∷ []) ≡ some failed_row
unfolding find
failed_found = refl

run-terminal_example :
    (r' : Reservation) × (find 4
        (run day (session_with (shared_row ∷ failed_row ∷ []))).reservations
      ≡ some r')
    × (r'.status ≡ Status.failed)
run-terminal_example =
    run-terminal day (session_with (shared_row ∷ failed_row ∷ [])) 4 failed_row failed_found refl

-- A reservation of the whole GPU after the first one, and an edit that pulls its start ahead.
abbrev next_row : Reservation
next_row = record shared_row {
  id = 2;
  group_id = 42;
  start_at = hour 3;
  end_at = hour 5;
  script = none;
  script_scheduled_start_at = none;
  gpu_memory_mb = none;
  gpu_compute_share_pct = none;
}

abbrev two_rows : Session
two_rows = session_with (shared_row ∷ next_row ∷ [])

abbrev pull_ahead : Edit
pull_ahead = record {
  reservation_id = 2;
  actor_user_id = 9;
  new_start_at = some (hour 2);
  new_end_at = none;
  new_script = none;
  new_script_scheduled_start_at = none;
  new_script_max_runtime_seconds = none;
  lab_id = 7;
  now = today;
}

next_found : find 2 two_rows.reservations ≡ some next_row
unfolding find
next_found = refl

may : may_edit pull_ahead next_row ≡ ok tt
unfolding may_edit
may = refl

taken :
    check_window pull_ahead
      (move_window pull_ahead next_row)
      (put next_row (move_window pull_ahead next_row) two_rows)
    ≡ err (Error.overlap (1 ∷ []))
unfolding check_window validate_item_time exceeds_limit classify_conflict window_active_reservations
    update
taken = refl

still_valid :
    every row_ok (put next_row (move_window pull_ahead next_row) two_rows).reservations ≡ true
unfolding update row_ok script_fits tail_fits
still_valid = refl

refused_edit-stored_example :
    request (modify_reservation pull_ahead) two_rows
    ≡ (err (Error.overlap (1 ∷ [])), put next_row (move_window pull_ahead next_row) two_rows)
refused_edit-stored_example =
    refused_edit-stored pull_ahead two_rows next_row (Error.overlap (1 ∷ [])) next_found may taken
      refl still_valid

-- The shared row stands in the way of an exclusive one.
abbrev after_refusal : Session
after_refusal = (request (create_reservation_batch (request_of (exclusive_item ∷ [])) 41) sample).1

refused :
    request (create_reservation_batch (request_of (exclusive_item ∷ [])) 41) sample
    ≡ (err (Error.mix_exclusive_shared (1 ∷ [])), after_refusal)
unfolding request settle_request commit create_reservation_batch check_batch script_size item_shape
    validate_item validate_item_time load_link script_start_within exceeds_limit check_conflict
    raise_conflict classify_conflict window_active_reservations row_ok script_fits tail_fits
refused = refl

refused_batch-unchanged_example : after_refusal ≡ sample
refused_batch-unchanged_example =
    refused_batch-unchanged (request_of (exclusive_item ∷ [])) 41 sample after_refusal
      (Error.mix_exclusive_shared (1 ∷ [])) refused

sample_valid : every row_ok sample.reservations ≡ true
unfolding row_ok script_fits tail_fits
sample_valid = refl

in_sample : find 1 sample.reservations ≡ some shared_row
unfolding find
in_sample = refl

nothing_yet : Stored 1 [] sample
nothing_yet = record {
  valid = sample_valid;
  before = [];
  after = [];
  row = shared_row;
  table = refl;
  key = refl;
  alone_before = refl;
  alone_after = refl;
  text = refl;
  whole = refl;
}

abbrev lines : List Text
lines = (104 ∷ 105 ∷ []) ∷ [] ∷ (10 ∷ []) ∷ []

output-Stored_example : Stored 1 (all_taken [] lines) (run (pushes_of 1 lines) sample)
output-Stored_example = output-Stored 1 lines [] sample nothing_yet

-- The second reservation, extended by an hour.
abbrev extend : Edit
extend = record pull_ahead { new_start_at = none; new_end_at = some (hour 6) }

abbrev extended : Session
extended = (modify_reservation extend two_rows).1

extend_runs :
    modify_reservation extend two_rows ≡ (ok (record next_row { end_at = hour 6 }), extended)
unfolding modify_reservation may_edit edit_locked edit_row find update flush row_ok script_fits
    tail_fits check_window validate_item_time exceeds_limit classify_conflict
    window_active_reservations script_size
extend_runs = refl

two_rows-IsSafe : IsSafe two_rows
two_rows-IsSafe = record {
  at = λ g t x found. record {
    pct = ground arith;
    memory = ground arith;
    shape = inl (ground arith);
  };
}

modify-IsSafe_example : IsSafe extended
modify-IsSafe_example =
    modify-IsSafe extend two_rows extended next_row (record next_row { end_at = hour 6 })
      (shared_row ∷ []) [] refl refl refl refl extend_runs refl two_rows-IsSafe
