-- ===== src/Booking/Conflict.antt =====
-- The rows that overlap a window on a GPU, and the conflict matrix of one input row
-- (`_window_active_reservations` and `_classify_conflict`).
use core_lab.Prelude.{
  ℕ, ◌+◌, Bool, ◌&&◌, Option, none, some, List, map, ltb, is_id, is_some, is_none, or_else,
  is_empty, select, sum_of, if◌then◌else◌,
}
use core_lab.Data.Status.{is_live}
use core_lab.Data.Row.{Instant, Reservation, Gpu, ItemDraft}

-- `Reservation.gpu_id == g and status in ACTIVE_STATUSES and start_at < b and end_at > a`
abbrev pub overlaps : ℕ → Instant → Instant → Reservation → Bool
overlaps g a b r = is_id g r.gpu_id && (is_live r.status && (ltb r.start_at b && ltb a r.end_at))

unfoldable pub window_active_reservations :
    ℕ → Instant → Instant → List Reservation → List Reservation
window_active_reservations g a b rows = select (overlaps g a b) rows

-- What is wrong with an input row. Only the preview uses the last two.
pub data Conflict : Type 0 where
  exclusive_conflict : (conflicting_reservation_ids : List ℕ) → Conflict
  mix_exclusive_shared : (conflicting_reservation_ids : List ℕ) → Conflict
  memory_exceeded : (used_mb would_use_mb total_mb : ℕ) → List ℕ → Conflict
  compute_exceeded : (used_pct would_use_pct : ℕ) → List ℕ → Conflict
  time_too_long : (max_hours requested : ℕ) → Conflict
  invalid_time : Conflict

abbrev pub ids : List Reservation → List ℕ
ids = map (λ r. r.id)

abbrev pub is_shared : Reservation → Bool
is_shared r = is_some r.gpu_memory_mb

abbrev pub is_exclusive : Reservation → Bool
is_exclusive r = is_none r.gpu_memory_mb

abbrev pub used_mb : List Reservation → ℕ
used_mb = sum_of (λ r. or_else 0 r.gpu_memory_mb)

abbrev pub used_pct : List Reservation → ℕ
used_pct = sum_of (λ r. or_else 0 r.gpu_compute_share_pct)

abbrev pub total_mb : Gpu → ℕ
total_mb gpu = or_else 0 gpu.memory_total_mb

-- A new exclusive row against a window that is not empty.
against_exclusive : List Reservation → Conflict
against_exclusive window =
    if is_empty (select is_shared window)
    then exclusive_conflict (ids window)
    else mix_exclusive_shared (ids (select is_shared window))

-- The compute shares of a window of shared rows.
compute_conflict : Option ℕ → List Reservation → Option Conflict
compute_conflict none window = none
compute_conflict (some pct) window =
    if ltb 100 (used_pct window + pct)
    then some (
        compute_exceeded (used_pct window) pct
          (ids (select (λ r. is_some r.gpu_compute_share_pct) window)))
    else none

-- A new shared row of `mb` megabytes against a window that is not empty.
against_shared : ℕ → Option ℕ → List Reservation → Gpu → Option Conflict
unfolding compute_conflict
against_shared mb pct window gpu =
    if is_empty (select is_exclusive window)
    then if ltb 0 (total_mb gpu) && ltb (total_mb gpu) (used_mb window + mb)
      then some (memory_exceeded (used_mb window) mb (total_mb gpu) (ids window))
      else compute_conflict pct window
    else some (mix_exclusive_shared (ids (select is_exclusive window)))

classify_mode : Option ℕ → Option ℕ → List Reservation → Gpu → Option Conflict
unfolding against_exclusive against_shared
classify_mode none pct window gpu = some (against_exclusive window)
classify_mode (some mb) pct window gpu = against_shared mb pct window gpu

unfoldable pub classify_conflict : ItemDraft → List Reservation → Gpu → Option Conflict
unfolding classify_mode
classify_conflict item window gpu =
    if is_empty window
    then none
    else classify_mode item.gpu_memory_mb item.gpu_compute_share_pct window gpu
