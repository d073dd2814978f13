-- ===== src/RateLimit/Window.antt =====
-- `_InProcessSlidingWindow`: the instants of recent hits for each key, and the ends of locks. The
-- clock's milliseconds are an argument.
pub mod Count
use core_lab.Prelude.{
  ℕ, ◌+◌, ◌-◌, ◌*◌, Bool, true, false, Option, none, some, List, [], ◌∷◌, ◌++◌, length, ltb, leb,
  select, if◌then◌else◌,
}
use core_lab.Data.Row.{Text}
use core_lab.Data.Strings.{text_eq}

-- The two dictionaries; a key that is missing from `buckets` has no hits.
pub record Store : Type 0 where
  pub buckets : Text → List ℕ
  pub locks_until_ms : Text → Option ℕ

abbrev pub put {ℓ} : {A : Type ℓ} → Text → A → (Text → A) → Text → A
put key x f other = if text_eq key other then x else f other

-- `ts > now_ms - window_seconds * 1000`
abbrev pub is_fresh : (window_seconds now_ms ts : ℕ) → Bool
is_fresh window_seconds now_ms ts = ltb now_ms (ts + window_seconds * 1000)

-- The bucket of one key after a hit.
unfoldable pub bucket_after_hit : (window_seconds now_ms : ℕ) → List ℕ → List ℕ
bucket_after_hit window_seconds now_ms timestamps_ms =
    select (is_fresh window_seconds now_ms) timestamps_ms ++ now_ms ∷ []

-- `_bucket_count_after_hit`
unfoldable pub bucket_count_after_hit : Text → (window_seconds now_ms : ℕ) → Store → ℕ × Store
bucket_count_after_hit key window_seconds now_ms store =
    let bucket = bucket_after_hit window_seconds now_ms (store.buckets key) in
    (length bucket, record store { buckets = put key bucket store.buckets })

-- Whether a request is allowed, and how many more are.
unfoldable pub hit : Text → (max_requests window_seconds now_ms : ℕ) → Store → (Bool × ℕ) × Store
hit key max_requests window_seconds now_ms store =
    let (count, store') = bucket_count_after_hit key window_seconds now_ms store in
    ((leb count max_requests, max_requests - count), store')

-- Whether a failure trips the lock.
unfoldable pub failure_hit :
    (count_key lock_key : Text)
    → (threshold window_seconds lock_seconds now_ms : ℕ) → Store
    → Bool × Store
failure_hit count_key lock_key threshold window_seconds lock_seconds now_ms store =
    let (count, store') = bucket_count_after_hit count_key window_seconds now_ms store in
    if leb threshold count
    then (
      true,
      record store' {
        locks_until_ms = put lock_key (some (now_ms + lock_seconds * 1000)) store'.locks_until_ms;
      },
    )
    else (false, store')

lock_at : Text → ℕ → Store → Option ℕ → Bool × Store
lock_at key now_ms store none = (false, store)
lock_at key now_ms store (some expires_at) =
    if leb expires_at now_ms
    then (false, record store { locks_until_ms = put key none store.locks_until_ms })
    else (true, store)

-- A lock that has expired is removed when it is looked at.
unfoldable pub is_locked : Text → (now_ms : ℕ) → Store → Bool × Store
unfolding lock_at
is_locked key now_ms store = lock_at key now_ms store (store.locks_until_ms key)

unfoldable pub clear_failure : (count_key lock_key : Text) → Store → Store
clear_failure count_key lock_key store = record {
  buckets = put count_key [] store.buckets;
  locks_until_ms = put lock_key none store.locks_until_ms;
}
