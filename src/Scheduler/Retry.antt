-- ===== src/Scheduler/Retry.antt =====
-- `with_serializable_retry` (backend/corelab_backend/services/_serializable_retry.py). The factory
-- is any call that returns, meets a deadlock, or raises another error; durations are in
-- microseconds.
pub mod Bound
use Prim.Native.Nat.{◌^◌}
use core_lab.Prelude.{
  ℕ, zero, suc, ◌+◌, ◌-◌, ◌*◌, ◌<◌, ◌≡◌, refl, sym, ap, ◌∙◌, subst, Bool, true, false, List, [],
  ◌∷◌, arith, ◌==◌, inl, inr, Bool-cases,
}

-- What one call of the factory comes to.
pub data Attempt (A E : Type 0) : Type 0 where
  returned : A → Attempt A E
  deadlock : Attempt A E
  raised : E → Attempt A E

pub data Finished (A E : Type 0) : Type 0 where
  returned : A → Finished A E
  raised : E → Finished A E
  -- the last deadlock is raised again
  exhausted : Finished A E
  -- `assert last_exc is not None`
  assertion_failed : Finished A E

-- The result, the pauses that were slept, and the state.
abbrev pub Run : Type 0 → Type 0 → Type 0 → Type 0
Run S A E = Finished A E × List ℕ × S

module _ {S A E : Type 0} where
  slept : ℕ → Run S A E → Run S A E
  slept pause (r, pauses, s) = (r, pause ∷ pauses, s)

  -- The end of one round.
  after_attempt : Bool → ℕ → Attempt A E → S → (S → Run S A E) → Run S A E
  unfolding slept
  after_attempt last pause (Attempt.returned a) s next = (Finished.returned a, [], s)
  after_attempt last pause (Attempt.raised e) s next = (Finished.raised e, [], s)
  after_attempt true pause Attempt.deadlock s next = (Finished.exhausted, [], s)
  after_attempt false pause Attempt.deadlock s next = slept pause (next s)

  retry_loop : (S → Attempt A E × S) → (base max_retries left attempt : ℕ) → S → Run S A E
  unfolding after_attempt
  retry_loop factory base max_retries zero attempt s = (Finished.assertion_failed, [], s)
  retry_loop factory base max_retries (suc left) attempt s =
      after_attempt (suc attempt == max_retries) (base * 2 ^ attempt) (factory s).0 (factory s).1
        (retry_loop factory base max_retries left (suc attempt))

  unfoldable pub with_serializable_retry :
      (S → Attempt A E × S) → (max_retries backoff_base : ℕ) → S → Run S A E
  unfolding retry_loop
  with_serializable_retry factory max_retries backoff_base s =
      retry_loop factory backoff_base max_retries max_retries 0 s
