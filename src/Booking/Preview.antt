-- ===== src/Booking/Preview.antt =====
-- `preview_conflicts`: the checks of a batch, collected for each item instead of raised.
pub mod Agrees
use core_lab.Prelude.{
  ℕ, suc, ◌-◌, Bool, true, false, Option, none, some, List, [], ◌∷◌, ◌++◌, map, if◌then◌else◌,
}
use core_lab.Data.Row.{Instant, Server, Gpu, ItemDraft}
use core_lab.Session.Tables.{Session}
use core_lab.Booking.Conflict.{Conflict, classify_conflict, window_active_reservations}
use core_lab.Booking.Given.{GivenItem, utc, is_before, is_at_most, elapsed, given_start, given_end}
use core_lab.Booking.Validate.{grace, exceeds_limit}

-- An entry of `time_limit_checks`; the duration is the item's in microseconds.
pub record TimeLimitCheck : Type 0 where
  input_index : ℕ
  max_hours : Option ℕ
  requested : ℕ
  would_exceed : Bool

pub record PreviewResult : Type 0 where
  pub conflicts : List (ℕ × Conflict)
  pub time_limit_checks : List TimeLimitCheck

abbrev listed : Option Conflict → List Conflict
listed none = []
listed (some c) = c ∷ []

-- The conflict of an item with the rows in its window; the query drops the offsets.
preview_gpu : Session → ItemDraft → ℕ → Option Gpu → List Conflict
preview_gpu s item g none = Conflict.invalid_time ∷ []
preview_gpu s item g (some gpu) = listed (
    classify_conflict item (window_active_reservations g item.start_at item.end_at s.reservations)
      gpu)

preview_on : Session → ItemDraft → Option ℕ → List Conflict
unfolding preview_gpu
preview_on s item none = []
preview_on s item (some g) = preview_gpu s item g (s.gpus g)

abbrev hours_or_zero : Option ℕ → ℕ
hours_or_zero none = 0
hours_or_zero (some n) = n

abbrev pub duration : GivenItem → ℕ
duration item = elapsed (given_start item) (given_end item)

-- The record of an item that is too long for its server, beside its conflict.
preview_limit : Session → GivenItem → Server → List Conflict
unfolding preview_on
preview_limit s item server =
    if exceeds_limit server.max_reservation_hours (duration item)
    then Conflict.time_too_long (hours_or_zero server.max_reservation_hours) (duration item)
      ∷ preview_on s item.draft item.draft.gpu_id
    else preview_on s item.draft item.draft.gpu_id

preview_server : Session → GivenItem → Option Server → List Conflict
unfolding preview_limit
preview_server s item none = Conflict.invalid_time ∷ []
preview_server s item (some server) = preview_limit s item server

-- `or`, where a comparison may raise.
abbrev or_test : Option Bool → Option Bool → Option Bool
or_test none b = none
or_test (some true) b = some true
or_test (some false) b = b

-- The first test of an item; nothing is a `TypeError`. `now` is in UTC.
abbrev pub bad_time : Instant → GivenItem → Option Bool
bad_time now item =
    or_test (is_at_most (given_end item) (given_start item))
      (is_before (given_start item) (record { reading = now - grace; zone = some utc }))

preview_tested : Session → GivenItem → Option Bool → Option (List Conflict)
unfolding preview_server
preview_tested s item none = none
preview_tested s item (some true) = some (Conflict.invalid_time ∷ [])
preview_tested s item (some false) = some (preview_server s item (s.servers item.draft.server_id))

preview_item : Session → Instant → GivenItem → Option (List Conflict)
unfolding preview_tested
preview_item s now item = preview_tested s item (bad_time now item)

limit_check : ℕ → GivenItem → Option Server → TimeLimitCheck
limit_check index item none = record {
  input_index = index;
  max_hours = none;
  requested = 0;
  would_exceed = false;
}
limit_check index item (some server) = record {
  input_index = index;
  max_hours = server.max_reservation_hours;
  requested = duration item;
  would_exceed = exceeds_limit server.max_reservation_hours (duration item);
}

-- The check of an item whose times were tested.
check_of : Session → ℕ → GivenItem → Option Bool → TimeLimitCheck
unfolding limit_check
check_of s index item (some false) = limit_check index item (s.servers item.draft.server_id)
check_of s index item _ = limit_check index item none

-- What an item adds before those of the rest; an exception ends the loop.
abbrev added_to :
    (index : ℕ)
    → Option (List Conflict)
    → TimeLimitCheck
    → Option PreviewResult
    → Option PreviewResult
added_to index none check rest = none
added_to index (some conflicts) check none = none
added_to index (some conflicts) check (some rest) = some (record {
  conflicts = map (λ c. (index, c)) conflicts ++ rest.conflicts;
  time_limit_checks = check ∷ rest.time_limit_checks;
})

-- The loop over the items, from an index on.
preview_from : Session → Instant → ℕ → List GivenItem → Option PreviewResult
unfolding preview_item check_of
preview_from s now index [] = some (record { conflicts = []; time_limit_checks = [] })
preview_from s now index (item ∷ items) =
    added_to index (preview_item s now item) (check_of s index item (bad_time now item))
      (preview_from s now (suc index) items)

-- Nothing is a `TypeError`.
unfoldable pub preview_conflicts : Session → Instant → List GivenItem → Option PreviewResult
unfolding preview_from
preview_conflicts s now items = preview_from s now 0 items
