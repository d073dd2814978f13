-- ===== src/Tests/Recommender.antt =====
-- The theorems on recommended windows, at the sample's GPU.
use core_lab.Prelude.{
  arith, ℕ, ◌≡◌, ◌≤◌, ◌<◌, refl, true, none, some, List, [], ◌∷◌, All, max, or_else, ◌==◌,
  if◌then◌else◌, length,
}
use core_lab.Prelude.Sort.{Ascending}
use core_lab.Data.Row.{seconds}
use core_lab.Recommender.{Candidate, recommend, group_gpus, busy_by_gpu, candidates_of}
use core_lab.Recommender.Sweep.{
  Interval, earliest_window_for_server, sweep, initial_free, events_of, busy_at, span_after,
  open_until, pick_first_n,
}
use core_lab.Recommender.Sound.{IsSound, recommend-IsSound}
use core_lab.Recommender.Defects.{back_to_back-empty, relay-busy}
use core_lab.Tests.{today, hour, shared_row}

-- Two hours on one GPU, which are free from the third hour on.
abbrev best : Candidate
best = record {
  server_id = 2;
  window = record { gpu_ids = 5 ∷ []; start_at = hour 3; end_at = hour 5 };
}

best-recommended : recommend ((5, 2) ∷ []) (shared_row ∷ []) today 1 7200 none 3 ≡ some (best ∷ [])
unfolding recommend group_gpus busy_by_gpu candidates_of earliest_window_for_server sweep
    initial_free events_of busy_at span_after open_until pick_first_n
best-recommended = refl

recommend-IsSound_example :
    All
      (IsSound ((5, 2) ∷ []) (shared_row ∷ []) (max (or_else today none) today) 1 (seconds 7200))
      (best ∷ [])
    × Ascending (λ (c : Candidate). c.window.start_at) (best ∷ [])
    × (length (best ∷ []) ≤ 3)
recommend-IsSound_example =
    recommend-IsSound ((5, 2) ∷ []) (shared_row ∷ []) today 1 7200 none 3 (best ∷ [])
      best-recommended

abbrev two_runs : ℕ → List Interval
two_runs g = record { b_start = 2; b_end = 5 } ∷ record { b_start = 5; b_end = 9 } ∷ []

back_to_back-empty_example :
    (earliest_window_for_server (7 ∷ []) two_runs 0 100 1 10
      ≡ some (record { gpu_ids = []; start_at = 5; end_at = 15 }))
    × (busy_at 5 (two_runs 7) ≡ true)
back_to_back-empty_example =
    back_to_back-empty two_runs 7 0 100 2 5 9 10 refl (ground arith) (ground arith) (ground arith)
      (ground arith) (ground arith) (ground arith)

abbrev one_each : ℕ → List Interval
one_each g =
    if g == 7
    then record { b_start = 6; b_end = 100 } ∷ []
    else record { b_start = 0; b_end = 4 } ∷ []

relay-busy_example :
    (earliest_window_for_server (7 ∷ 8 ∷ []) one_each 0 100 1 10
      ≡ some (record { gpu_ids = 7 ∷ []; start_at = 0; end_at = 10 }))
    × (0 < 6)
    × (6 < 10)
    × (busy_at 6 (one_each 7) ≡ true)
relay-busy_example =
    relay-busy one_each 7 8 0 100 6 4 10 refl refl refl (ground arith) (ground arith) (ground arith)
      (ground arith)
