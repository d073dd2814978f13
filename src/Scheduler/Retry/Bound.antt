-- ===== src/Scheduler/Retry/Bound.antt =====
-- How a retried call ends.
use Prim.Native.Nat.{◌^◌}
use core_lab.Prelude.{
  ℕ, zero, suc, ◌+◌, ◌*◌, ◌<◌, ◌≡◌, refl, ap, ◌∙◌, Bool, true, false, List, [], ◌∷◌, arith, ◌==◌,
}
use core_lab.Scheduler.Retry.{
  Attempt, Finished, Run, slept, after_attempt, retry_loop, with_serializable_retry,
}

-- The pauses after a number of attempts, the first of which has a given index.
pub pauses : ℕ → ℕ → ℕ → List ℕ
pauses base attempt zero = []
pauses base attempt (suc k) = base * 2 ^ attempt ∷ pauses base (suc attempt) k

abbrev pub finished_by : {A E : Type 0} → Attempt A E → Finished A E
finished_by (Attempt.returned a) = Finished.returned a
finished_by (Attempt.raised e) = Finished.raised e
finished_by Attempt.deadlock = Finished.exhausted

abbrev pub is_deadlock : {A E : Type 0} → Attempt A E → Bool
is_deadlock (Attempt.returned a) = false
is_deadlock (Attempt.raised e) = false
is_deadlock Attempt.deadlock = true

-- The factory meets a deadlock in each of its first calls.
pub data Deadlocked {S A E : Type 0} (factory : S → Attempt A E × S) : ℕ → S → S → Type 0 where
  none_yet : {s : S} → Deadlocked factory 0 s s
  one_more :
      {k : ℕ} {s s₁ s₂ : S}
      → factory s ≡ (Attempt.deadlock, s₁)
      → Deadlocked factory k s₁ s₂
      → Deadlocked factory (suc k) s s₂

module _ {S A E : Type 0} (pause : ℕ) (round : Attempt A E × S) (next : S → Run S A E) (s : S) where
  after_attempt-again :
      (last : Bool)
      → round ≡ (Attempt.deadlock, s)
      → last ≡ false
      → after_attempt last pause round.0 round.1 next ≡ slept pause (next s)
  unfolding after_attempt
  after_attempt-again last e more = rw (more, e) refl

  after_attempt-last :
      (last : Bool)
      → round ≡ (Attempt.deadlock, s)
      → last ≡ true
      → after_attempt last pause round.0 round.1 next ≡ (Finished.exhausted, [], s)
  unfolding after_attempt
  after_attempt-last last e more = rw (more, e) refl

  after_attempt-ends :
      (last : Bool) (o : Attempt A E)
      → round ≡ (o, s)
      → is_deadlock o ≡ false
      → after_attempt last pause round.0 round.1 next ≡ (finished_by o, [], s)
  unfolding after_attempt
  after_attempt-ends last (Attempt.returned a) e h = rw e refl
  after_attempt-ends last (Attempt.raised x) e h = rw e refl
  after_attempt-ends last Attempt.deadlock e h = cc

module _ {S A E : Type 0} (factory : S → Attempt A E × S) (base max_retries : ℕ) where
  retry_loop-ends :
      (k left attempt : ℕ) (s s₁ s₂ : S) (o : Attempt A E)
      → left + attempt ≡ max_retries
      → k < left
      → Deadlocked factory k s s₁
      → factory s₁ ≡ (o, s₂)
      → is_deadlock o ≡ false
      → retry_loop factory base max_retries left attempt s
        ≡ (finished_by o, pauses base attempt k, s₂)
  unfolding retry_loop pauses slept
  retry_loop-ends k zero attempt s s₁ s₂ o total few d e h = ground arith
  retry_loop-ends zero (suc left) attempt s s₁ s₂ o total few Deadlocked.none_yet e h =
      after_attempt-ends (base * 2 ^ attempt) (factory s) _ s₂ (suc attempt == max_retries) o e h
  retry_loop-ends (suc k) (suc left) attempt s s₁ s₂ o total few
        (Deadlocked.one_more {s₁ = s'} first d) e h =
      after_attempt-again (base * 2 ^ attempt) (factory s) _ s' (suc attempt == max_retries) first
        (ground (arith, total, few))
      ∙ ap (slept (base * 2 ^ attempt)) (
          retry_loop-ends k left (suc attempt) s' s₁ s₂ o (omega (arith, total))
            (omega (arith, few)) d e h)

  retry_loop-exhausted :
      (k attempt : ℕ) (s s₁ : S)
      → suc k + attempt ≡ max_retries
      → Deadlocked factory (suc k) s s₁
      → retry_loop factory base max_retries (suc k) attempt s
        ≡ (Finished.exhausted, pauses base attempt k, s₁)
  unfolding retry_loop pauses slept
  retry_loop-exhausted zero attempt s s₁ total (Deadlocked.one_more first Deadlocked.none_yet) =
      after_attempt-last (base * 2 ^ attempt) (factory s) _ s₁ (suc attempt == max_retries) first
        (ground (arith, total))
  retry_loop-exhausted (suc k) attempt s s₁ total (Deadlocked.one_more {s₁ = s'} first d) =
      after_attempt-again (base * 2 ^ attempt) (factory s) _ s' (suc attempt == max_retries) first
        (ground (arith, total))
      ∙ ap (slept (base * 2 ^ attempt))
          (retry_loop-exhausted k (suc attempt) s' s₁ (omega (arith, total)) d)

  -- If the factory meets a deadlock fewer times in a row than there are attempts, the call ends with
  -- what the next one comes to, in its state, and has slept once after each deadlock, each time
  -- twice as long.
  pub with_serializable_retry-ends :
      (k : ℕ) (s s₁ s₂ : S) (o : Attempt A E)
      → k < max_retries
      → Deadlocked factory k s s₁
      → factory s₁ ≡ (o, s₂)
      → is_deadlock o ≡ false
      → with_serializable_retry factory max_retries base s ≡ (finished_by o, pauses base 0 k, s₂)
  unfolding with_serializable_retry
  with_serializable_retry-ends k s s₁ s₂ o few d e h =
      retry_loop-ends k max_retries 0 s s₁ s₂ o (omega arith) few d e h

module _ {S A E : Type 0} (factory : S → Attempt A E × S) (base n : ℕ) where
  -- If the factory meets a deadlock in each of the attempts, at least one of which is made, the last
  -- of them is raised, and no pause follows it.
  with_serializable_retry-exhausted :
      (s s₁ : S)
      → Deadlocked factory (suc n) s s₁
      → with_serializable_retry factory (suc n) base s ≡ (Finished.exhausted, pauses base 0 n, s₁)
  unfolding with_serializable_retry
  with_serializable_retry-exhausted s s₁ d =
      retry_loop-exhausted factory base (suc n) n 0 s s₁ (omega arith) d
