-- ===== src/Tests/Booking.antt =====
-- The theorems on booking, at the sample.
use core_lab.Prelude.{
  All, ◌≡◌, ◌↔◌, refl, true, none, some, map, List, [], ◌∷◌, ◌++◌, arith, inl, every,
}
use core_lab.Data.Row.{Reservation, ItemDraft, row_ok, script_fits, tail_fits}
use core_lab.Data.Error.{ok}
use core_lab.Session.Tables.{Session}
use core_lab.Booking.Conflict.{Conflict, classify_conflict, window_active_reservations}
use core_lab.Booking.Validate.{
  validate_item, validate_item_time, load_link, script_start_within, script_size, item_shape,
  exceeds_limit,
}
use core_lab.Booking.Validate.Meaning.{Valid, validate_item-Valid}
use core_lab.Booking.Create.{
  check_batch, check_conflict, raise_conflict, rows_of, create_reservation_batch,
}
use core_lab.Booking.Create.Run.{create-ok, inserted, outcome}
use core_lab.Booking.Capacity.Create.{IsSafe, create-IsSafe}
use core_lab.Booking.Capacity.Defects.{with_items, check_conflict-alone, twice-not-IsSafe}
use core_lab.Booking.Given.{Zone, given_in}
use core_lab.Booking.Preview.{PreviewResult, preview_conflicts}
use core_lab.Booking.Preview.Agrees.{
  Bookable, IsClean, in_utc, preview_conflicts-Bookable, preview_conflicts-offset,
}
use core_lab.Data.Status.{Status}
use core_lab.Booking.Create.{row_of}
use core_lab.Booking.Create.Script.{row_of-dispatchable}
use core_lab.Lifecycle.Transition.{set_status}
use core_lab.Scheduler.Tick.{is_dispatchable}
use core_lab.Tests.{today, hour, gpu, session_with, sample, shared_item, exclusive_item, request_of}

checked : check_batch (request_of (shared_item ∷ [])) sample ≡ ok tt
unfolding check_batch script_size item_shape validate_item validate_item_time load_link
    script_start_within exceeds_limit check_conflict raise_conflict classify_conflict
    window_active_reservations
checked = refl

valid :
    every row_ok (sample.reservations ++ inserted (request_of (shared_item ∷ [])) 41 sample) ≡ true
unfolding row_ok script_fits tail_fits rows_of
valid = refl

created : create_reservation_batch (request_of (shared_item ∷ [])) 41 sample ≡ (
  ok (inserted (request_of (shared_item ∷ [])) 41 sample),
  outcome (request_of (shared_item ∷ [])) 41 sample,
)
created = create-ok (request_of (shared_item ∷ [])) 41 sample checked valid

sample-IsSafe : IsSafe sample
sample-IsSafe = record {
  at = λ g t x found. record {
    pct = ground arith;
    memory = ground arith;
    shape = inl (ground arith);
  };
}

create-IsSafe_example : IsSafe (outcome (request_of (shared_item ∷ [])) 41 sample)
create-IsSafe_example =
    create-IsSafe (request_of (shared_item ∷ [])) 41 sample
      (outcome (request_of (shared_item ∷ [])) 41 sample)
      (inserted (request_of (shared_item ∷ [])) 41 sample) created (tt, tt) refl sample-IsSafe

alone : check_batch (with_items (request_of []) (exclusive_item ∷ [])) (session_with []) ≡ ok tt
unfolding check_batch script_size item_shape validate_item validate_item_time load_link
    script_start_within exceeds_limit check_conflict raise_conflict classify_conflict
    window_active_reservations
alone = refl

alone_valid :
    every row_ok
      ([] ++ inserted (with_items (request_of []) (exclusive_item ∷ [])) 41 (session_with []))
    ≡ true
unfolding row_ok script_fits tail_fits rows_of
alone_valid = refl

twice-not-IsSafe_example :
    (s₂ : Session) × (pair : List Reservation) × (create_reservation_batch
        (with_items (request_of []) (exclusive_item ∷ exclusive_item ∷ []))
        41
        (session_with [])
      ≡ (ok pair, s₂))
    × ¬ IsSafe s₂
twice-not-IsSafe_example =
    twice-not-IsSafe (request_of []) 41 (session_with [])
      (outcome (with_items (request_of []) (exclusive_item ∷ [])) 41 (session_with []))
      (inserted (with_items (request_of []) (exclusive_item ∷ [])) 41 (session_with []))
      exclusive_item 5 gpu
      (create-ok (with_items (request_of []) (exclusive_item ∷ [])) 41 (session_with []) alone
        alone_valid)
      refl refl refl (omega arith)

-- 30 GB of a GPU with 24 GB.
abbrev large_item : ItemDraft
large_item = record shared_item { gpu_memory_mb = some 30000 }

check_conflict-alone_example :
    (check_conflict (session_with []) large_item ≡ ok tt)
    ↔ (window_active_reservations 5 (hour 2) (hour 4) [] ≡ [])
check_conflict-alone_example =
    check_conflict-alone (session_with []) large_item 5 gpu 30000 refl refl refl (omega arith)
      (omega arith)

validate_item-Valid_example :
    (validate_item sample today 9 none shared_item ≡ ok tt) ↔ Valid sample today 9 none shared_item
validate_item-Valid_example = validate_item-Valid sample today 9 none shared_item

-- Two items: the first may be booked, and the second is exclusive in a window that is taken.
preview_conflicts-Bookable_example :
    IsClean (preview_conflicts sample today (map in_utc (shared_item ∷ exclusive_item ∷ [])))
    ↔ All (Bookable sample today) (shared_item ∷ exclusive_item ∷ [])
preview_conflicts-Bookable_example =
    preview_conflicts-Bookable sample today (shared_item ∷ exclusive_item ∷ [])

-- Eight hours ahead of UTC.
abbrev shanghai : Zone
shanghai = record { ahead = 28_800_000_000; behind = 0 }

bookable : Bookable sample today shared_item
unfolding validate_item_time exceeds_limit check_conflict raise_conflict classify_conflict
    window_active_reservations
bookable = (refl, refl)

preview_conflicts-offset_example :
    (preview_conflicts sample today (given_in none shared_item ∷ []) ≡ none)
    × ((r : PreviewResult) × (preview_conflicts sample today
            (given_in (some shanghai) shared_item ∷ [])
          ≡ some r)
        × (r.conflicts ≡ (0, Conflict.invalid_time) ∷ []))
preview_conflicts-offset_example =
    preview_conflicts-offset sample today shared_item shanghai bookable (omega arith)

-- A script of two characters, once the item has begun.
row_of-dispatchable_example :
    is_dispatchable
      (hour 2)
      (set_status Status.active (row_of (request_of []) 41 10 (some (108 ∷ 115 ∷ [])) shared_item))
    ≡ true
row_of-dispatchable_example =
    row_of-dispatchable (request_of []) 41 10 (108 ∷ 115 ∷ []) shared_item (hour 2)
