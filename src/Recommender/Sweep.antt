-- ===== src/Recommender/Sweep.antt =====
-- The sweep over one server's GPUs, `_earliest_window_for_server` and `_pick_first_n`.
use core_lab.Prelude.{
  ℕ, ◌+◌, ◌-◌, Bool, true, false, ◌||◌, ◌&&◌, not, Option, none, some, List, [], ◌∷◌, ◌++◌, length,
  ltb, leb, ◌==◌, select, some_of, if◌then◌else◌,
}
use core_lab.Prelude.Sort.{sort_by}
use core_lab.Data.Row.{Instant}

pub record Interval : Type 0 where
  pub b_start : Instant
  pub b_end : Instant

pub record Window : Type 0 where
  pub gpu_ids : List ℕ
  pub start_at : Instant
  pub end_at : Instant

-- `b_start <= at_time < b_end` for some interval
unfoldable pub busy_at : Instant → List Interval → Bool
busy_at at_time = some_of (λ i. leb i.b_start at_time && ltb at_time i.b_end)

-- -1 and +1 of the source
pub data Delta : Type 0 where
  leaves enters : Delta

pub record Event : Type 0 where
  pub time : Instant
  pub delta : Delta
  pub gpu_id : ℕ

abbrev pub events_of_gpu : ℕ → List Interval → List Event
events_of_gpu gpu_id [] = []
events_of_gpu gpu_id (i ∷ intervals) =
    record { time = i.b_start; delta = Delta.leaves; gpu_id = gpu_id }
    ∷ record { time = i.b_end; delta = Delta.enters; gpu_id = gpu_id }
    ∷ events_of_gpu gpu_id intervals

unfoldable pub events_of : (ℕ → List Interval) → List ℕ → List Event
events_of busy [] = []
events_of busy (gpu_id ∷ gpu_ids) = events_of_gpu gpu_id (busy gpu_id) ++ events_of busy gpu_ids

abbrev delta_le : Delta → Delta → Bool
delta_le Delta.enters Delta.leaves = false
delta_le _ _ = true

-- `key=lambda e: (e[0], e[1])`
abbrev pub event_le : Event → Event → Bool
event_le e f = ltb e.time f.time || (e.time == f.time && delta_le e.delta f.delta)

abbrev pub discard : ℕ → List ℕ → List ℕ
discard x = select (λ y. not (y == x))

abbrev add : ℕ → List ℕ → List ℕ
add x free_set = if some_of (λ y. y == x) free_set then free_set else free_set ++ x ∷ []

abbrev pub apply_delta : Delta → ℕ → List ℕ → List ℕ
apply_delta Delta.leaves gpu_id free_set = discard gpu_id free_set
apply_delta Delta.enters gpu_id free_set = add gpu_id free_set

abbrev pub apply_event : Event → List ℕ → List ℕ
apply_event e = apply_delta e.delta e.gpu_id

unfoldable pub initial_free : (ℕ → List Interval) → Instant → List ℕ → List ℕ
initial_free busy window_start = select (λ gpu_id. not (busy_at window_start (busy gpu_id)))

-- A span that was long enough, or the start of the one that is open, if one is.
pub data Span : Type 0 where
  found : Instant → Span
  going : Option Instant → Span

unfoldable pub span_after :
    (duration : ℕ) → Option Instant → (event_time : Instant) → (has_enough_now : Bool) → Span
span_after duration none event_time true = Span.going (some event_time)
span_after duration none event_time false = Span.going none
span_after duration (some start) event_time true = Span.going (some start)
span_after duration (some start) event_time false =
    if leb (start + duration) event_time then Span.found start else Span.going none

-- The end of the sweep, with the candidate that is still open.
unfoldable pub open_until :
    (window_end : Instant) → (duration : ℕ) → Option Instant → Option Instant
open_until window_end duration none = none
open_until window_end duration (some start) =
    if leb (start + duration) window_end then some start else none

-- The loop over the events, up to the start of the span.
unfoldable pub sweep :
    (window_end : Instant)
    → (gpu_count duration : ℕ) → (free_set : List ℕ) → (candidate_start : Option Instant)
    → List Event
    → Option Instant
sweep window_end gpu_count duration free_set candidate_start [] =
    open_until window_end duration candidate_start
sweep window_end gpu_count duration free_set candidate_start (e ∷ events) =
    elim (span_after duration candidate_start e.time
      (leb gpu_count (length (apply_event e free_set)))) [
        | Span.found start ↦ some start
        | Span.going start ↦ elim (leb window_end e.time) [
          | true ↦ open_until window_end duration start
          | false ↦ sweep window_end gpu_count duration (apply_event e free_set) start events
        ]
      ]

-- The GPUs that are still wanted, and the loop until none is; a first `n` of zero never stops it.
unfoldable pub pick_first_n : List ℕ → ℕ → (ℕ → List Interval) → Instant → List ℕ
pick_first_n [] n busy at_time = []
pick_first_n (gpu_id ∷ gpu_ids) n busy at_time =
    if busy_at at_time (busy gpu_id)
    then pick_first_n gpu_ids n busy at_time
    else if n == 1
    then gpu_id ∷ []
    else gpu_id ∷ pick_first_n gpu_ids (n - 1) busy at_time

abbrev pub window_at :
    List ℕ → (ℕ → List Interval) → (gpu_count duration : ℕ) → Option Instant → Option Window
window_at gpu_ids busy gpu_count duration none = none
window_at gpu_ids busy gpu_count duration (some start) = some (record {
  gpu_ids = pick_first_n gpu_ids gpu_count busy start;
  start_at = start;
  end_at = start + duration;
})

abbrev pub first_start : (window_start : Instant) → Bool → Option Instant
first_start window_start true = some window_start
first_start window_start false = none

unfoldable pub earliest_window_for_server :
    List ℕ
    → (ℕ → List Interval)
    → (window_start window_end : Instant) → (gpu_count duration : ℕ) → Option Window
earliest_window_for_server gpu_ids busy window_start window_end gpu_count duration =
    window_at gpu_ids busy gpu_count duration (
      sweep window_end gpu_count duration (initial_free busy window_start gpu_ids)
        (first_start window_start (leb gpu_count (length (initial_free busy window_start gpu_ids))))
        (sort_by event_le (events_of busy gpu_ids)))
