-- ===== src/Tests/RateLimit.antt =====
-- The theorems on the rate limits, at two requests and two failures.
use core_lab.Prelude.{
  arith, ◌≡◌, ◌≤◌, ◌+◌, ◌*◌, refl, Option, none, some, List, [], ◌∷◌, leb, ltb, if◌then◌else◌,
}
use core_lab.Data.Row.{Text}
use core_lab.Session.Write.{codes}
use core_lab.RateLimit.Window.{Store, is_fresh, bucket_after_hit}
use core_lab.RateLimit.Window.Count.{count, bucket_of}
use core_lab.RateLimit.Budget.{Request, key_of, limit_of}
use core_lab.RateLimit.Budget.Bound.{Arrival, served, in_window, served-limit}
use core_lab.RateLimit.Lock.{login_lock_manager, record_failure, subject_locked}
use core_lab.RateLimit.Lock.Locked.{Logged, record_failure-locked}

abbrev post : Request
post = record {
  path = codes "/api/v1/reservations";
  method = codes "POST";
  authorization = codes "Bearer t";
  x_forwarded_for = [];
  client_host = none;
}

abbrev decode : Text → Option Text
decode token = some token

abbrev arrivals : List Arrival
arrivals = (post, 90_000) ∷ (post, 70_000) ∷ []

served-limit_example :
    count (in_window decode 60_000) (served decode (key_of decode post) arrivals) ≤ limit_of post
served-limit_example = served-limit decode post 60_000 arrivals ((ground arith, tt), (tt, tt))

abbrev two_failures : Store
two_failures = record { buckets = λ key. 1_000 ∷ 2_000 ∷ []; locks_until_ms = λ key. none }

two_failures-Logged : Logged login_lock_manager (codes "bob") (2_000 ∷ 1_000 ∷ []) two_failures
unfolding bucket_of bucket_after_hit
two_failures-Logged = refl

record_failure-locked_example :
    ((record_failure login_lock_manager (codes "bob") 3_000 two_failures).0
      ≡ leb 3 (count (is_fresh 300 3_000) (2_000 ∷ 1_000 ∷ []) + 1))
    × ((subject_locked login_lock_manager
          (codes "bob")
          9_000
          (record_failure login_lock_manager (codes "bob") 3_000 two_failures).1).0
        ≡ (if leb 3 (count (is_fresh 300 3_000) (2_000 ∷ 1_000 ∷ []) + 1)
            then ltb 9_000 (3_000 + 300 * 1000)
            else (subject_locked login_lock_manager (codes "bob") 9_000 two_failures).0))
record_failure-locked_example =
    record_failure-locked login_lock_manager (codes "bob") (2_000 ∷ 1_000 ∷ []) 3_000 9_000
      two_failures two_failures-Logged (ground arith, (ground arith, tt))
