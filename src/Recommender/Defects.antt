-- ===== src/Recommender/Defects.antt =====
-- Windows that the sweep recommends and that cannot be booked.
use core_lab.Prelude.{ℕ, ◌+◌, ◌≤◌, ◌<◌, ◌≡◌, true, false, some, List, [], ◌∷◌, arith, ◌==◌, ==_refl}
use core_lab.Recommender.Sweep.{
  Interval, busy_at, events_of, initial_free, span_after, open_until, sweep, pick_first_n,
  earliest_window_for_server,
}

module _ (busy : ℕ → List Interval) (g : ℕ) (ws we a t b d : ℕ) where
  -- A server's one GPU is busy in two intervals of the search window without a gap between them, the
  -- first of which begins too early for a window before it. Where a window from their common instant
  -- on ends in the search window, it is recommended, with no GPU at all, although the second interval has just begun.
  pub back_to_back-empty :
      busy g ≡ record { b_start = a; b_end = t } ∷ record { b_start = t; b_end = b } ∷ []
      → ws ≤ a
      → a < ws + d
      → a < t
      → t < b
      → b ≤ we
      → t + d ≤ we
      → (earliest_window_for_server (g ∷ []) busy ws we 1 d
          ≡ some (record { gpu_ids = []; start_at = t; end_at = t + d }))
        × (busy_at t (busy g) ≡ true)
  unfolding earliest_window_for_server sweep initial_free events_of busy_at span_after open_until
      pick_first_n
  back_to_back-empty e h1 h2 h3 h4 h5 h6 = (ground (arith, e, ==_refl g), ground (arith, e))

module _ (busy : ℕ → List Interval) (g h : ℕ) (ws we a b d : ℕ) where
  -- Of a server's two GPUs, the first is free up to an instant and busy from then on, and the second
  -- is busy from the start of the search up to an earlier instant. For one GPU, and a window from the start
  -- of the search that contains the first instant and ends in the search window, that window is
  -- recommended with the first GPU, which is busy from within it on.
  pub relay-busy :
      (h == g) ≡ false
      → busy g ≡ record { b_start = a; b_end = we } ∷ []
      → busy h ≡ record { b_start = ws; b_end = b } ∷ []
      → ws < b
      → b < a
      → a < ws + d
      → ws + d ≤ we
      → (earliest_window_for_server (g ∷ h ∷ []) busy ws we 1 d
          ≡ some (record { gpu_ids = g ∷ []; start_at = ws; end_at = ws + d }))
        × (ws < a)
        × (a < ws + d)
        × (busy_at a (busy g) ≡ true)
  unfolding earliest_window_for_server sweep initial_free events_of busy_at span_after open_until
      pick_first_n
  relay-busy k e f h1 h2 h3 h4 =
      (ground (arith, k, e, f, ==_refl g, ==_refl h), ground arith, h3, ground (arith, e))
