-- ===== src/Recommender.antt =====
-- `recommend`, over the GPUs of a lab's servers and the reservations of the table.
pub mod Sweep
pub mod Spans
pub mod Sound
pub mod Defects
use core_lab.Prelude.{
  ℕ, ◌+◌, ◌*◌, Bool, true, false, ◌||◌, Option, none, some, List, [], ◌∷◌, ◌++◌, map, max, min,
  length, ltb, leb, ◌==◌, or_else, select, if◌then◌else◌,
}
use core_lab.Prelude.Sort.{sort_by, take, by_key}
use core_lab.Data.Row.{Instant, Reservation, seconds}
use core_lab.Booking.Conflict.{overlaps}
use core_lab.Recommender.Sweep.{Interval, Window, earliest_window_for_server}

abbrev pub horizon : Instant
horizon = seconds (7 * 86400)

pub record Candidate : Type 0 where
  pub server_id : ℕ
  pub window : Window

-- The GPUs of each server, in the order of the rows, which are pairs of a GPU and its server.
abbrev pub add_gpu : ℕ → ℕ → List (ℕ × List ℕ) → List (ℕ × List ℕ)
add_gpu server_id gpu_id [] = (server_id, gpu_id ∷ []) ∷ []
add_gpu server_id gpu_id ((s, gids) ∷ servers) =
    let rest = add_gpu server_id gpu_id servers in
    if s == server_id then (s, gids ++ gpu_id ∷ []) ∷ servers else (s, gids) ∷ rest

unfoldable pub group_gpus : List (ℕ × List ℕ) → List (ℕ × ℕ) → List (ℕ × List ℕ)
group_gpus servers [] = servers
group_gpus servers ((gpu_id, server_id) ∷ rows) = group_gpus (add_gpu server_id gpu_id servers) rows

abbrev pub eligible : ℕ → List (ℕ × List ℕ) → List (ℕ × List ℕ)
eligible gpu_count = select (λ (server : ℕ × List ℕ). leb gpu_count (length server.1))

-- The busy intervals of a GPU in the search window, clipped to it.
unfoldable pub busy_by_gpu :
    (search_start horizon_end : Instant) → List Reservation → ℕ → List Interval
busy_by_gpu search_start horizon_end rows gpu_id =
    map (λ r. record { b_start = max r.start_at search_start; b_end = min r.end_at horizon_end })
      (sort_by (by_key (λ r. r.start_at)) (select (overlaps gpu_id search_start horizon_end) rows))

abbrev pub add_candidate : ℕ → Option Window → List Candidate → List Candidate
add_candidate server_id none candidates = candidates
add_candidate server_id (some w) candidates =
    record { server_id = server_id; window = w } ∷ candidates

unfoldable pub candidates_of :
    (ℕ → List Interval)
    → (window_start window_end : Instant) → (gpu_count duration : ℕ) → List (ℕ × List ℕ)
    → List Candidate
candidates_of busy window_start window_end gpu_count duration [] = []
candidates_of busy window_start window_end gpu_count duration ((server_id, gids) ∷ servers) =
    add_candidate server_id
      (earliest_window_for_server gids busy window_start window_end gpu_count duration)
      (candidates_of busy window_start window_end gpu_count duration servers)

-- Nothing stands for ValueError. `gpu_rows` is what the first query finds: the active GPUs of the
-- lab's servers by server and index.
unfoldable pub recommend :
    (gpu_rows : List (ℕ × ℕ))
    → List Reservation
    → (now : Instant) → (gpu_count time_limit_seconds : ℕ) → (after : Option Instant) → (top_k : ℕ)
    → Option (List Candidate)
recommend gpu_rows reservations now gpu_count time_limit_seconds after top_k =
    let search_start = max (or_else now after) now in
    let horizon_end = search_start + horizon in
    if ltb gpu_count 1 || ltb time_limit_seconds 60
    then none
    else some (
        take top_k (
          sort_by (by_key (λ (c : Candidate). c.window.start_at)) (
            candidates_of (busy_by_gpu search_start horizon_end reservations) search_start
              horizon_end gpu_count (seconds time_limit_seconds)
              (eligible gpu_count (group_gpus [] gpu_rows)))))
