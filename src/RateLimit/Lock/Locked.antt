-- ===== src/RateLimit/Lock/Locked.antt =====
-- How long a subject is locked.
use core_lab.Prelude.{
  ℕ, ◌+◌, ◌*◌, ◌≤◌, ◌≡◌, Bool, true, false, Option, none, some, List, [], ◌∷◌, arith, length-append,
  ltb, leb, All, select, if◌then◌else◌,
}
use core_lab.Data.Row.{Text}
use core_lab.Data.Strings.Equal.{text_eq_refl}
use core_lab.RateLimit.Window.{
  Store, is_fresh, failure_hit, is_locked, bucket_after_hit, bucket_count_after_hit,
}
use core_lab.RateLimit.Window.Count.{count, bucket_of, count-bucket_of}
use core_lab.RateLimit.Lock.{
  FailureLockManager, count_key, lock_key, subject_locked, record_failure,
}

abbrev ends_after : ℕ → Option ℕ → Bool
ends_after now none = false
ends_after now (some until) = ltb now until

module _ (m : FailureLockManager) (subject : Text) where
  -- The store's record of the subject's failures is that of a log of them, the newest first.
  abbrev pub Logged : List ℕ → Store → Type 0
  Logged log s = s.buckets (count_key m subject) ≡ bucket_of m.window_seconds log

  trips :
      (log : List ℕ) (now : ℕ) (s : Store)
      → Logged log s
      → All (λ u. u ≤ now) log
      → (record_failure m subject now s).0
        ≡ leb m.threshold (count (is_fresh m.window_seconds now) log + 1)
  unfolding record_failure failure_hit bucket_count_after_hit bucket_after_hit
  trips log now s logged order = ground (
    arith,
    logged,
    count-bucket_of m.window_seconds log now order,
    length-append (select (is_fresh m.window_seconds now) (s.buckets (count_key m subject)))
        (now ∷ []),
  )

  tripped_lock :
      (now : ℕ) (s : Store)
      → (record_failure m subject now s).0 ≡ true
      → (record_failure m subject now s).1.locks_until_ms (lock_key m subject)
        ≡ some (now + m.lock_seconds * 1000)
  unfolding record_failure failure_hit bucket_count_after_hit
  tripped_lock now s h = ground (arith, h, text_eq_refl (lock_key m subject))

  other_lock :
      (now : ℕ) (s : Store)
      → (record_failure m subject now s).0 ≡ false
      → (record_failure m subject now s).1.locks_until_ms (lock_key m subject)
        ≡ s.locks_until_ms (lock_key m subject)
  unfolding record_failure failure_hit bucket_count_after_hit
  other_lock now s h = ground (arith, h)

  -- A lock holds until its end.
  subject_locked_lem :
      (now : ℕ) (s : Store)
      → (subject_locked m subject now s).0 ≡ ends_after now (s.locks_until_ms (lock_key m subject))
  unfolding subject_locked is_locked
  subject_locked_lem now s = ground arith

  -- A failure that is, with the fresh ones among those before it, at least the threshold locks the
  -- subject from then on until the lock's time has passed; no other failure reports a lock or
  -- changes whether, and until when, the subject is found locked.
  pub record_failure-locked :
      (log : List ℕ) (now later : ℕ) (s : Store)
      → Logged log s
      → All (λ u. u ≤ now) log
      → ((record_failure m subject now s).0
          ≡ leb m.threshold (count (is_fresh m.window_seconds now) log + 1))
        × ((subject_locked m subject later (record_failure m subject now s).1).0 ≡ (
            if leb m.threshold (count (is_fresh m.window_seconds now) log + 1)
            then ltb later (now + m.lock_seconds * 1000)
            else (subject_locked m subject later s).0))
  record_failure-locked log now later s logged order = (
    trips log now s logged order,
    ground (
      arith,
      trips log now s logged order,
      tripped_lock now s,
      other_lock now s,
      subject_locked_lem later s,
      subject_locked_lem later (record_failure m subject now s).1,
    ),
  )
