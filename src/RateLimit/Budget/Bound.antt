-- ===== src/RateLimit/Budget/Bound.antt =====
-- How many requests of one key are let through in a window.
use core_lab.Prelude.{
  ℕ, ◌+◌, ◌*◌, ◌≤◌, ◌<◌, ◌≡◌, refl, ap, Bool, true, false, ◌&&◌, not, Option, none, List, [], ◌∷◌,
  ◌++◌, arith, length, length-append, ltb, leb, select, All, ◌==◌, if◌then◌else◌,
}
use core_lab.Data.Row.{Text}
use core_lab.Data.Strings.{text_eq}
use core_lab.Data.Strings.Equal.{text_eq_sound}
use core_lab.Session.Write.{codes}
use core_lab.RateLimit.Window.{Store, hit, is_fresh, bucket_after_hit, bucket_count_after_hit}
use core_lab.RateLimit.Window.Count.{count, bucket_of, count-bucket_of}
use core_lab.RateLimit.Budget.{
  Request, Response, dispatch, answer, key_of, request_identity, limit_of, is_exempt, is_write,
  window_seconds, default_read_per_minute, default_write_per_minute,
}

-- A store before any request.
abbrev pub new_store : Store
new_store = record { buckets = λ key. []; locks_until_ms = λ key. none }

-- The last character of a key says which budget it counts in.
last_char : Text → ℕ
last_char [] = 0
last_char (c ∷ []) = c
last_char (c ∷ d ∷ text) = last_char (d ∷ text)

last_char-append : (text : Text) (c d : ℕ) → last_char (text ++ c ∷ d ∷ []) ≡ d
unfolding last_char
last_char-append [] c d = refl
last_char-append (x ∷ []) c d = refl
last_char-append (x ∷ y ∷ text) c d = last_char-append (y ∷ text) c d

limit_of_key : Text → ℕ
limit_of_key key =
    if last_char key == b'w' then default_write_per_minute else default_read_per_minute

buckets-same : (s : Store) (a b : Text) → text_eq a b ≡ true → s.buckets a ≡ s.buckets b
buckets-same s a b h = ap s.buckets (text_eq_sound a b h)

limit_of_key-same : (a b : Text) → text_eq a b ≡ true → limit_of_key a ≡ limit_of_key b
limit_of_key-same a b h = ap limit_of_key (text_eq_sound a b h)

limit-suffix :
    (prefix : Text) (w : Bool)
    → limit_of_key (prefix ++ (if w then codes ":w" else codes ":r"))
      ≡ (if w then default_write_per_minute else default_read_per_minute)
unfolding limit_of_key
limit-suffix prefix true = rw (last_char-append prefix b':' b'w') refl
limit-suffix prefix false = rw (last_char-append prefix b':' b'r') refl

-- A request with the instant of its arrival, in milliseconds.
abbrev pub Arrival : Type 0
Arrival = Request × ℕ

module _ (decode : Text → Option Text) where
  limit-key : (r : Request) → limit_of_key (key_of decode r) ≡ limit_of r
  unfolding limit_of key_of
  limit-key r = limit-suffix (codes "ratelimit:" ++ request_identity decode r) (is_write r)

  -- The store after requests, the last of which stands first.
  unfoldable pub after : List Arrival → Store
  after [] = new_store
  after ((r, t) ∷ older) = (dispatch decode r t (after older)).1

  abbrev is_passed : Response → Bool
  is_passed (Response.passed limit remaining) = true
  is_passed (Response.too_many_requests limit) = false
  is_passed Response.exempt = false

  -- The request counts in the bucket of the key.
  counts : Text → Request → Bool
  counts key r = not (is_exempt r) && text_eq (key_of decode r) key

  hits : Text → List Arrival → List ℕ
  hits key [] = []
  hits key ((r, t) ∷ older) = if counts key r then t ∷ hits key older else hits key older

  -- The instants at which requests that count in the bucket of the key were let through.
  unfoldable pub served : Text → List Arrival → List ℕ
  unfolding counts
  served key [] = []
  served key ((r, t) ∷ older) =
      if counts key r && is_passed (dispatch decode r t (after older)).0
      then t ∷ served key older
      else served key older

  -- The clock does not run backwards.
  abbrev pub InOrder : List Arrival → Type 0
  InOrder [] = Unit
  InOrder ((r, t) ∷ older) = All (λ (e : Arrival). e.1 ≤ t) older × InOrder older

  hits-le :
      (key : Text) (t : ℕ) (es : List Arrival)
      → All (λ (e : Arrival). e.1 ≤ t) es
      → All (λ u. u ≤ t) (hits key es)
  unfolding hits
  hits-le key t [] h = tt
  hits-le key t ((r, u) ∷ es) h = go (counts key r) (hits-le key t es h.1)
    where
      go :
          (b : Bool)
          → All (λ v. v ≤ t) (hits key es)
          → All (λ v. v ≤ t) (if b then u ∷ hits key es else hits key es)
      go true rest = (h.0, rest)
      go false rest = rest

  buckets-answer :
      (limit : ℕ) (x : (Bool × ℕ) × Store) (key : Text)
      → (answer limit x).1.buckets key ≡ x.1.buckets key
  unfolding answer
  buckets-answer limit ((true, n), store) key = refl
  buckets-answer limit ((false, n), store) key = refl

  passed-answer : (limit : ℕ) (x : (Bool × ℕ) × Store) → is_passed (answer limit x).0 ≡ x.0.0
  unfolding answer
  passed-answer limit ((true, n), store) = refl
  passed-answer limit ((false, n), store) = refl

  buckets-dispatch :
      (key : Text) (r : Request) (t : ℕ) (s : Store)
      → (dispatch decode r t s).1.buckets key ≡ (
          if counts key r then bucket_after_hit window_seconds t (s.buckets key) else s.buckets key)
  unfolding dispatch counts hit bucket_count_after_hit
  buckets-dispatch key r t s = ground (
    arith,
    buckets-answer (limit_of r) (hit (key_of decode r) (limit_of r) window_seconds t s) key,
    buckets-same s (key_of decode r) key,
  )

  -- A request that counts is let through if the bucket with it is within the key's limit.
  passed-dispatch :
      (key : Text) (r : Request) (t : ℕ) (s : Store)
      → counts key r ≡ true
      → is_passed (dispatch decode r t s).0
        ≡ leb (length (bucket_after_hit window_seconds t (s.buckets key))) (limit_of_key key)
  unfolding dispatch counts hit bucket_count_after_hit
  passed-dispatch key r t s h = ground (
    arith,
    passed-answer (limit_of r) (hit (key_of decode r) (limit_of r) window_seconds t s),
    buckets-same s (key_of decode r) key,
    limit_of_key-same (key_of decode r) key,
    limit-key r,
  )

  after-buckets :
      (key : Text) (es : List Arrival)
      → (after es).buckets key ≡ bucket_of window_seconds (hits key es)
  unfolding after hits bucket_of
  after-buckets key [] = refl
  after-buckets key ((r, t) ∷ es) =
      ground (arith, buckets-dispatch key r t (after es), after-buckets key es)

  -- In a window: from an instant on, for the length of the window.
  abbrev pub in_window : ℕ → ℕ → Bool
  in_window a t = leb a t && ltb t (a + window_seconds * 1000)

  -- What was served in a window that still runs at an instant was hit within a window of it.
  served-fresh :
      (key : Text) (a now : ℕ) (es : List Arrival)
      → now < a + window_seconds * 1000
      → count (in_window a) (served key es) ≤ count (is_fresh window_seconds now) (hits key es)
  unfolding served hits
  served-fresh key a now [] h = omega arith
  served-fresh key a now ((r, t) ∷ es) h = ground (arith, served-fresh key a now es h)

  length-bucket_after :
      (key : Text) (t : ℕ) (es : List Arrival)
      → All (λ (e : Arrival). e.1 ≤ t) es
      → length (bucket_after_hit window_seconds t ((after es).buckets key))
        ≡ count (is_fresh window_seconds t) (hits key es) + 1
  unfolding bucket_after_hit
  length-bucket_after key t es h = ground (
    arith,
    after-buckets key es,
    length-append (select (is_fresh window_seconds t) (bucket_of window_seconds (hits key es)))
        (t ∷ []),
    count-bucket_of window_seconds (hits key es) t (hits-le key t es h),
  )

  served-le :
      (key : Text) (a : ℕ) (es : List Arrival)
      → InOrder es
      → count (in_window a) (served key es) ≤ limit_of_key key
  unfolding served
  served-le key a [] h = omega arith
  served-le key a ((r, t) ∷ es) h = ground (
    arith,
    served-le key a es h.1,
    served-fresh key a t es,
    passed-dispatch key r t (after es),
    length-bucket_after key t es h.0,
  )

  -- However requests arrive while the clock does not run backwards, of those that count in one
  -- request's bucket, in any 60 seconds at most its limit are let through: 60 that write, or 600 others.
  pub served-limit :
      (r : Request) (a : ℕ) (es : List Arrival)
      → InOrder es
      → count (in_window a) (served (key_of decode r) es) ≤ limit_of r
  served-limit r a es h = ground (arith, served-le (key_of decode r) a es h, limit-key r)
