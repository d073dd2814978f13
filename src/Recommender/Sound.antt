-- ===== src/Recommender/Sound.antt =====
-- What holds of each recommended window.
use core_lab.Prelude.{
  ℕ, zero, suc, Bool-cases, ◌+◌, ◌≤◌, ◌≡◌, refl, sym, ◌∙◌, subst, Bool, true, false, ◌&&◌, ◌||◌,
  Option, none, some, List, [], ◌∷◌, ◌++◌, max, arith, length, ltb, leb, ◌==◌, ==_refl, or_else,
  some_of, All, if◌then◌else◌, inl, inr,
}
use core_lab.Prelude.Sort.{
  sort_by, take, by_key, All-sort_by, All-take, All-map, Ascending, sort_by-Ascending,
  take-Ascending,
}
use core_lab.Prelude.Members.{All-append, All-select, All-member}
use core_lab.Data.Row.{Instant, Reservation, seconds}
use core_lab.Booking.Capacity.Window.{occupies}
use core_lab.Recommender.{
  horizon, Candidate, add_gpu, group_gpus, eligible, busy_by_gpu, add_candidate, candidates_of,
  recommend,
}
use core_lab.Recommender.Sweep.{
  Interval, busy_at, events_of, event_le, initial_free, sweep, pick_first_n, window_at, first_start,
  earliest_window_for_server,
}
use core_lab.Recommender.Spans.{
  busy_at-occupies, InSearchEvent, Lies, busy-InSearch, events_of-InSearch, sweep-Lies,
  first_start-Starts, pick_first_n-free, pick_first_n-All, length-pick_first_n,
}

-- A property of GPUs and servers, along the grouping.
module _ {κ} (P : ℕ → ℕ → Type κ) where
  abbrev Group : ℕ × List ℕ → Type κ
  Group server = All (λ g. P g server.0) server.1

  add_gpu-All :
      (s g : ℕ) (servers : List (ℕ × List ℕ))
      → P g s
      → All Group servers
      → All Group (add_gpu s g servers)
  add_gpu-All s g [] h k = ((h, tt), tt)
  add_gpu-All s g ((s', gids) ∷ servers) h k = go (s' == s) refl (add_gpu-All s g servers h k.1)
    where
      go :
          (b : Bool)
          → (s' == s) ≡ b
          → All Group (add_gpu s g servers)
          → All Group
              (if b then (s', gids ++ g ∷ []) ∷ servers else (s', gids) ∷ add_gpu s g servers)
      go true e r = (
        All-append (λ x. P x s') gids (g ∷ []) k.0 (subst (λ x. P g x) (ground (arith, e)) h, tt),
        k.1,
      )
      go false e r = (k.0, r)

  group_gpus-All :
      (servers : List (ℕ × List ℕ)) (rows : List (ℕ × ℕ))
      → All Group servers
      → All (λ (row : ℕ × ℕ). P row.0 row.1) rows
      → All Group (group_gpus servers rows)
  unfolding group_gpus
  group_gpus-All servers [] h k = h
  group_gpus-All servers ((g, s) ∷ rows) h k =
      group_gpus-All (add_gpu s g servers) rows (add_gpu-All s g servers k.0 h) k.1

abbrev same_row : ℕ × ℕ → ℕ × ℕ → Bool
same_row a b = a.0 == b.0 && a.1 == b.1

same_row_refl : (a : ℕ × ℕ) → same_row a a ≡ true
same_row_refl (a, b) = ground (arith, ==_refl a, ==_refl b)

-- A window for the request that begins and ends in the search window, with no more GPUs than wanted,
-- all of the server, which no reservation holds at its start.
pub record IsSound (gpu_rows : List (ℕ × ℕ)) (reservations : List Reservation) (ws : Instant)
    (n d : ℕ) (c : Candidate) : Type 0 where
  pub starts : ws ≤ c.window.start_at
  pub lasts : c.window.end_at ≡ c.window.start_at + d
  pub ends : c.window.end_at ≤ ws + horizon
  pub few : length c.window.gpu_ids ≤ n
  pub there : All (λ g. some_of (same_row (g, c.server_id)) gpu_rows ≡ true) c.window.gpu_ids
  pub free : All (λ g. some_of (occupies g c.window.start_at) reservations ≡ false) c.window.gpu_ids

module _ (gpu_rows : List (ℕ × ℕ)) (reservations : List Reservation) (ws : Instant) (n d : ℕ)
    (some_gpu : 1 ≤ n) (some_time : 1 ≤ d) where
  abbrev busy : ℕ → List Interval
  busy = busy_by_gpu ws (ws + horizon) reservations

  abbrev ServerThere : ℕ × List ℕ → Type 0
  ServerThere server = All (λ g. some_of (same_row (g, server.0)) gpu_rows ≡ true) server.1

  start_of : List ℕ → Option Instant
  start_of gids =
      sweep (ws + horizon) n d (initial_free busy ws gids)
        (first_start ws (leb n (length (initial_free busy ws gids))))
        (sort_by event_le (events_of busy gids))

  start_of-Lies : (gids : List ℕ) → Lies ws (ws + horizon) n d (start_of gids)
  unfolding start_of
  start_of-Lies gids =
      sweep-Lies ws (ws + horizon) n d (initial_free busy ws gids)
        (first_start ws (leb n (length (initial_free busy ws gids))))
        (sort_by event_le (events_of busy gids))
        (first_start-Starts ws (ws + horizon) n d (leb n (length (initial_free busy ws gids))))
        (All-sort_by (InSearchEvent ws (ws + horizon)) event_le (events_of busy gids) (
          events_of-InSearch ws (ws + horizon) busy
            (λ g. busy-InSearch ws (ws + horizon) (ground arith) g reservations) gids))

  candidate-IsSound :
      (server : ℕ) (gids : List ℕ) (c : Instant)
      → ServerThere (server, gids)
      → start_of gids ≡ some c
      → IsSound gpu_rows reservations ws n d (record {
        server_id = server;
        window = record { gpu_ids = pick_first_n gids n busy c; start_at = c; end_at = c + d };
      })
  candidate-IsSound server gids c h e =
      let (starts, ends) = start_of-Lies gids c e in
      record {
        starts = starts;
        lasts = refl;
        ends = ends;
        few = length-pick_first_n busy c gids n some_gpu;
        there =
            pick_first_n-All busy c (λ g. some_of (same_row (g, server)) gpu_rows ≡ true) gids n h;
        free =
            All-map (λ g. busy_at c (busy g) ≡ false)
              (λ g. some_of (occupies g c) reservations ≡ false)
              (λ g k.
                sym (
                  busy_at-occupies ws (ws + horizon) g c reservations starts
                    (ground (arith, ends, some_time)))
                ∙ k)
              (pick_first_n gids n busy c) (pick_first_n-free busy c gids n);
      }

  candidates_of-IsSound :
      (servers : List (ℕ × List ℕ))
      → All ServerThere servers
      → All
          (IsSound gpu_rows reservations ws n d)
          (candidates_of busy ws (ws + horizon) n d servers)
  unfolding candidates_of earliest_window_for_server start_of
  candidates_of-IsSound [] h = tt
  candidates_of-IsSound ((server, gids) ∷ servers) h =
      go (start_of gids) refl (candidates_of-IsSound servers h.1)
    where
      go :
          (o : Option Instant)
          → start_of gids ≡ o
          → All
              (IsSound gpu_rows reservations ws n d)
              (candidates_of busy ws (ws + horizon) n d servers)
          → All (IsSound gpu_rows reservations ws n d) (
              add_candidate server
                (window_at gids busy n d o)
                (candidates_of busy ws (ws + horizon) n d servers))
      go none e r = r
      go (some c) e r = (candidate-IsSound server gids c h.0 e, r)

length-take {ℓ} : {A : Type ℓ} → (n : ℕ) → (xs : List A) → length (take n xs) ≤ n
length-take zero xs = omega arith
length-take (suc n) [] = omega arith
length-take (suc n) (x ∷ xs) = omega (arith, length-take n xs)

-- Whenever candidates are recommended, each begins and ends within seven days of the start of the
-- search, is as long as asked, has at most as many GPUs as asked, all of its own server and none of
-- them held by a live reservation at its start; they stand by ascending start, and there are no more than wanted.
pub recommend-IsSound :
    (gpu_rows : List (ℕ × ℕ)) (reservations : List Reservation) (now : Instant) (n time_limit : ℕ)
    (after : Option Instant) (top_k : ℕ) (candidates : List Candidate)
    → recommend gpu_rows reservations now n time_limit after top_k ≡ some candidates
    → All
        (IsSound gpu_rows reservations (max (or_else now after) now) n (seconds time_limit))
        candidates
      × Ascending (λ (c : Candidate). c.window.start_at) candidates
      × (length candidates ≤ top_k)
unfolding recommend
recommend-IsSound gpu_rows reservations now n time_limit after top_k candidates h =
    elim (Bool-cases (ltb n 1 || ltb time_limit 60)) [
      | inl refused ↦ cc
      | inr fine ↦
          subst
            (λ cs.
              All (IsSound gpu_rows reservations ws n (seconds time_limit)) cs
              × Ascending (λ (c : Candidate). c.window.start_at) cs
              × (length cs ≤ top_k))
            (ground (arith, fine, h))
            (
              All-take (IsSound gpu_rows reservations ws n (seconds time_limit)) top_k
                  (sort_by (by_key (λ (c : Candidate). c.window.start_at)) found)
                  (All-sort_by (IsSound gpu_rows reservations ws n (seconds time_limit))
                    (by_key (λ (c : Candidate). c.window.start_at)) found (sound fine)),
              take-Ascending (λ (c : Candidate). c.window.start_at) top_k
                  (sort_by (by_key (λ (c : Candidate). c.window.start_at)) found)
                  (sort_by-Ascending (λ (c : Candidate). c.window.start_at) found),
              length-take top_k (sort_by (by_key (λ (c : Candidate). c.window.start_at)) found),
            )
    ]
  where
    ws : Instant
    ws = max (or_else now after) now

    found : List Candidate
    found =
        candidates_of (busy_by_gpu ws (ws + horizon) reservations) ws (ws + horizon) n
          (seconds time_limit) (eligible n (group_gpus [] gpu_rows))

    sound :
        (ltb n 1 || ltb time_limit 60) ≡ false
        → All (IsSound gpu_rows reservations ws n (seconds time_limit)) found
    sound fine =
        candidates_of-IsSound gpu_rows reservations ws n (seconds time_limit) (ground (arith, fine))
          (ground (arith, fine)) (eligible n (group_gpus [] gpu_rows))
          (All-select
            (ServerThere gpu_rows reservations ws n (seconds time_limit) (ground (arith, fine))
              (ground (arith, fine)))
            (λ (server : ℕ × List ℕ). leb n (length server.1)) (group_gpus [] gpu_rows)
            (group_gpus-All (λ g s. some_of (same_row (g, s)) gpu_rows ≡ true) [] gpu_rows tt
              (All-member same_row same_row_refl gpu_rows gpu_rows (λ z k. k))))
