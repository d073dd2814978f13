-- ===== src/Recommender/Spans.antt =====
-- Where the spans of a sweep lie, and which GPUs are picked.
use core_lab.Prelude.{
  ℕ, ◌+◌, ◌-◌, ◌≤◌, ◌<◌, ◌≡◌, refl, ap, ◌∙◌, Bool, true, false, ◌&&◌, ◌||◌, Option, none, some,
  List, [], ◌∷◌, map, max, min, arith, length, ltb, leb, ◌==◌, select, some_of, All, if◌then◌else◌,
}
use core_lab.Prelude.Sort.{insert_by, sort_by, by_key, All-sort_by}
use core_lab.Prelude.Members.{All-append}
use core_lab.Data.Row.{Instant, Reservation}
use core_lab.Booking.Conflict.{overlaps}
use core_lab.Booking.Capacity.Window.{occupies}
use core_lab.Recommender.{busy_by_gpu}
use core_lab.Recommender.Sweep.{
  Interval, Event, Span, busy_at, events_of_gpu, events_of, apply_event, span_after, open_until,
  sweep, pick_first_n, first_start,
}

-- Sorting changes nothing about whether some element passes a test.
some_of-insert_by {ℓ} :
    {A : Type ℓ}
    → (p : A → Bool) → (le : A → A → Bool) → (x : A) → (ys : List A)
    → some_of p (insert_by le x ys) ≡ (p x || some_of p ys)
some_of-insert_by p le x [] = refl
some_of-insert_by p le x (y ∷ ys) = ground (arith, some_of-insert_by p le x ys)

some_of-sort_by {ℓ} :
    {A : Type ℓ}
    → (p : A → Bool) → (le : A → A → Bool) → (xs : List A)
    → some_of p (sort_by le xs) ≡ some_of p xs
some_of-sort_by p le [] = refl
some_of-sort_by p le (x ∷ xs) =
    some_of-insert_by p le x (sort_by le xs) ∙ ap (λ b. p x || b) (some_of-sort_by p le xs)

some_of-map {ℓ κ} :
    {A : Type ℓ}
    → {B : Type κ} → (p : B → Bool) → (f : A → B) → (xs : List A)
    → some_of p (map f xs) ≡ some_of (λ x. p (f x)) xs
some_of-map p f [] = refl
some_of-map p f (x ∷ xs) = ap (λ b. p (f x) || b) (some_of-map p f xs)

module _ (ws we : Instant) where
  abbrev clip : Reservation → Interval
  clip r = record { b_start = max r.start_at ws; b_end = min r.end_at we }

  clipped-occupies :
      (g c : ℕ) (rows : List Reservation)
      → ws ≤ c
      → c < we
      → some_of
          (λ r. leb (max r.start_at ws) c && ltb c (min r.end_at we))
          (select (overlaps g ws we) rows)
        ≡ some_of (occupies g c) rows
  clipped-occupies g c [] h k = refl
  clipped-occupies g c (r ∷ rows) h k = ground (arith, clipped-occupies g c rows h k)

  -- Within the search window, the clipped intervals of a GPU are busy where a row holds it.
  pub busy_at-occupies :
      (g c : ℕ) (rows : List Reservation)
      → ws ≤ c
      → c < we
      → busy_at c (busy_by_gpu ws we rows g) ≡ some_of (occupies g c) rows
  unfolding busy_at busy_by_gpu
  busy_at-occupies g c rows h k =
      some_of-map (λ i. leb i.b_start c && ltb c i.b_end) clip
        (sort_by (by_key (λ r. r.start_at)) (select (overlaps g ws we) rows))
      ∙ (some_of-sort_by (λ r. leb (max r.start_at ws) c && ltb c (min r.end_at we))
            (by_key (λ r. r.start_at)) (select (overlaps g ws we) rows)
          ∙ clipped-occupies g c rows h k)

  abbrev pub InSearch : Instant → Type 0
  InSearch t = (ws ≤ t) × (t ≤ we)

  abbrev pub InSearchInterval : Interval → Type 0
  InSearchInterval i = InSearch i.b_start × InSearch i.b_end

  clip-InSearch :
      ws ≤ we
      → (g : ℕ) (rows : List Reservation)
      → All (λ r. InSearchInterval (clip r)) (select (overlaps g ws we) rows)
  clip-InSearch w g [] = tt
  clip-InSearch w g (r ∷ rows) = go (overlaps g ws we r) refl (clip-InSearch w g rows)
    where
      go :
          (b : Bool)
          → overlaps g ws we r ≡ b
          → All (λ r. InSearchInterval (clip r)) (select (overlaps g ws we) rows)
          → All
              (λ r. InSearchInterval (clip r))
              (if b then r ∷ select (overlaps g ws we) rows else select (overlaps g ws we) rows)
      go true e k = (((ground arith, ground arith), (ground arith, ground arith)), k)
      go false e k = k

  All-clip :
      (rows : List Reservation)
      → All (λ r. InSearchInterval (clip r)) rows
      → All InSearchInterval (map clip rows)
  All-clip [] h = tt
  All-clip (r ∷ rows) h = (h.0, All-clip rows h.1)

  pub busy-InSearch :
      ws ≤ we → (g : ℕ) (rows : List Reservation) → All InSearchInterval (busy_by_gpu ws we rows g)
  unfolding busy_by_gpu
  busy-InSearch w g rows =
      All-clip (sort_by (by_key (λ r. r.start_at)) (select (overlaps g ws we) rows)) (
        All-sort_by (λ r. InSearchInterval (clip r)) (by_key (λ r. r.start_at))
          (select (overlaps g ws we) rows) (clip-InSearch w g rows))

  abbrev pub InSearchEvent : Event → Type 0
  InSearchEvent e = InSearch e.time

  events_of_gpu-InSearch :
      (g : ℕ) (intervals : List Interval)
      → All InSearchInterval intervals
      → All InSearchEvent (events_of_gpu g intervals)
  events_of_gpu-InSearch g [] h = tt
  events_of_gpu-InSearch g (i ∷ intervals) h =
      (h.0.0, (h.0.1, events_of_gpu-InSearch g intervals h.1))

  pub events_of-InSearch :
      (busy : ℕ → List Interval)
      → ((g : ℕ) → All InSearchInterval (busy g))
      → (gpu_ids : List ℕ) → All InSearchEvent (events_of busy gpu_ids)
  unfolding events_of
  events_of-InSearch busy h [] = tt
  events_of-InSearch busy h (g ∷ gpu_ids) =
      All-append InSearchEvent (events_of_gpu g (busy g)) (events_of busy gpu_ids)
        (events_of_gpu-InSearch g (busy g) (h g)) (events_of-InSearch busy h gpu_ids)

  module _ (n d : ℕ) where
    -- A span starts in the search window, and it ends there.
    abbrev pub Starts : Option Instant → Type 0
    Starts start = (c : Instant) → start ≡ some c → ws ≤ c

    abbrev pub Lies : Option Instant → Type 0
    Lies start = (c : Instant) → start ≡ some c → (ws ≤ c) × (c + d ≤ we)

    open_until-Lies : (start : Option Instant) → Starts start → Lies (open_until we d start)
    unfolding open_until
    open_until-Lies none h c e = cc
    open_until-Lies (some x) h c e = (ground (arith, h x refl, e), ground (arith, e))

    SpanLies : Span → Type 0
    SpanLies (Span.found c) = (ws ≤ c) × (c + d ≤ we)
    SpanLies (Span.going start) = Starts start

    span_after-SpanLies :
        (start : Option Instant) (t : Instant) (enough : Bool)
        → Starts start
        → InSearch t
        → SpanLies (span_after d start t enough)
    unfolding span_after SpanLies
    span_after-SpanLies none t true h k = λ c e. ground (arith, e, k.0)
    span_after-SpanLies none t false h k = h
    span_after-SpanLies (some x) t true h k = h
    span_after-SpanLies (some x) t false h k = go (leb (x + d) t) refl
      where
        go : (b : Bool) → leb (x + d) t ≡ b → SpanLies (if b then Span.found x else Span.going none)
        go true e = (h x refl, ground (arith, k.1))
        go false e = λ c e. cc

    -- The sweep, after an event.
    abbrev onwards : Span → Bool → (free : List ℕ) → List Event → Option Instant
    onwards s stop free es = elim s [
      | Span.found start ↦ some start
      | Span.going start ↦ elim stop [
        | true ↦ open_until we d start
        | false ↦ sweep we n d free start es
      ]
    ]

    onwards-Lies :
        (s : Span) (stop : Bool) (free : List ℕ) (es : List Event)
        → SpanLies s
        → ((start : Option Instant) → Starts start → Lies (sweep we n d free start es))
        → Lies (onwards s stop free es)
    unfolding SpanLies
    onwards-Lies (Span.found x) stop free es h k =
        λ c e. (ground (arith, h.0, e), ground (arith, h.1, e))
    onwards-Lies (Span.going start) true free es h k = open_until-Lies start h
    onwards-Lies (Span.going start) false free es h k = k start h

    pub sweep-Lies :
        (free : List ℕ) (start : Option Instant) (es : List Event)
        → Starts start
        → All InSearchEvent es
        → Lies (sweep we n d free start es)
    unfolding sweep
    sweep-Lies free start [] h k = open_until-Lies start h
    sweep-Lies free start (e ∷ es) h k =
        onwards-Lies (span_after d start e.time (leb n (length (apply_event e free))))
          (leb we e.time) (apply_event e free) es
          (span_after-SpanLies start e.time (leb n (length (apply_event e free))) h k.0)
          (λ next g. sweep-Lies (apply_event e free) next es g k.1)

    pub first_start-Starts : (enough : Bool) → Starts (first_start ws enough)
    first_start-Starts true c e = ground (arith, e)
    first_start-Starts false c e = cc

-- The picked GPUs.
module _ (busy : ℕ → List Interval) (t : Instant) where
  pub pick_first_n-free :
      (gpu_ids : List ℕ) (n : ℕ)
      → All (λ g. busy_at t (busy g) ≡ false) (pick_first_n gpu_ids n busy t)
  unfolding pick_first_n
  pick_first_n-free [] n = tt
  pick_first_n-free (g ∷ gpu_ids) n =
      go (busy_at t (busy g)) (n == 1) refl (pick_first_n-free gpu_ids n)
        (pick_first_n-free gpu_ids (n - 1))
    where
      go :
          (b c : Bool)
          → busy_at t (busy g) ≡ b
          → All (λ g. busy_at t (busy g) ≡ false) (pick_first_n gpu_ids n busy t)
          → All (λ g. busy_at t (busy g) ≡ false) (pick_first_n gpu_ids (n - 1) busy t)
          → All
              (λ g. busy_at t (busy g) ≡ false)
              (if b
                then pick_first_n gpu_ids n busy t
                else if c
                then g ∷ []
                else g ∷ pick_first_n gpu_ids (n - 1) busy t)
      go true c e h k = h
      go false true e h k = (e, tt)
      go false false e h k = (e, k)

  pub pick_first_n-All {κ} :
      (P : ℕ → Type κ) (gpu_ids : List ℕ) (n : ℕ)
      → All P gpu_ids
      → All P (pick_first_n gpu_ids n busy t)
  unfolding pick_first_n
  pick_first_n-All P [] n h = tt
  pick_first_n-All P (g ∷ gpu_ids) n h =
      go (busy_at t (busy g)) (n == 1) (pick_first_n-All P gpu_ids n h.1)
        (pick_first_n-All P gpu_ids (n - 1) h.1)
    where
      go :
          (b c : Bool)
          → All P (pick_first_n gpu_ids n busy t)
          → All P (pick_first_n gpu_ids (n - 1) busy t)
          → All P (
              if b
              then pick_first_n gpu_ids n busy t
              else if c
              then g ∷ []
              else g ∷ pick_first_n gpu_ids (n - 1) busy t)
      go true c x y = x
      go false true x y = (h.0, tt)
      go false false x y = (h.0, y)

  pub length-pick_first_n :
      (gpu_ids : List ℕ) (n : ℕ) → 1 ≤ n → length (pick_first_n gpu_ids n busy t) ≤ n
  unfolding pick_first_n
  length-pick_first_n [] n h = ground arith
  length-pick_first_n (g ∷ gpu_ids) n h =
      ground (arith, length-pick_first_n gpu_ids n h, length-pick_first_n gpu_ids (n - 1))
