-- ===== src/RateLimit/Window/Count.antt =====
-- The bucket of a key, against the whole history of its hits.
use core_lab.Prelude.{
  ℕ, ◌+◌, ◌≤◌, ◌≡◌, refl, Bool, List, [], ◌∷◌, ◌++◌, arith, length, length-append, select,
  select-append, All,
}
use core_lab.RateLimit.Window.{is_fresh, bucket_after_hit}

-- The instants of a key's hits, the newest first, do not run backwards.
abbrev pub Descending : List ℕ → Type 0
Descending [] = Unit
Descending (t ∷ older) = All (λ u. u ≤ t) older × Descending older

-- How many of the instants pass a test.
abbrev pub count : (ℕ → Bool) → List ℕ → ℕ
count p xs = length (select p xs)

module _ (window_seconds : ℕ) where
  -- The bucket after the hits of a log.
  unfoldable pub bucket_of : List ℕ → List ℕ
  bucket_of [] = []
  bucket_of (t ∷ older) = bucket_after_hit window_seconds t (bucket_of older)

  -- What is fresh later was fresh before.
  count-fresh :
      (t now : ℕ) (xs : List ℕ)
      → t ≤ now
      → count (is_fresh window_seconds now) (select (is_fresh window_seconds t) xs)
        ≡ count (is_fresh window_seconds now) xs
  count-fresh t now [] h = refl
  count-fresh t now (x ∷ xs) h = ground (arith, count-fresh t now xs h)

  count-append : (p : ℕ → Bool) (xs ys : List ℕ) → count p (xs ++ ys) ≡ count p xs + count p ys
  count-append p xs ys =
      ground (arith, select-append p xs ys, length-append (select p xs) (select p ys))

  -- Pruning the bucket at each hit loses none of the hits that a later one counts.
  pub count-bucket_of :
      (log : List ℕ) (now : ℕ)
      → All (λ u. u ≤ now) log
      → count (is_fresh window_seconds now) (bucket_of log)
        ≡ count (is_fresh window_seconds now) log
  unfolding bucket_of bucket_after_hit
  count-bucket_of [] now h = refl
  count-bucket_of (t ∷ older) now h = ground (
    arith,
    h.0,
    count-append (is_fresh window_seconds now)
        (select (is_fresh window_seconds t) (bucket_of older)) (t ∷ []),
    count-fresh t now (bucket_of older) h.0,
    count-bucket_of older now h.1,
  )
