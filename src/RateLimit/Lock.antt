-- ===== src/RateLimit/Lock.antt =====
-- `_FailureLockManager`, which locks a subject after repeated failures.
pub mod Locked
use core_lab.Prelude.{ℕ, Bool, List, [], ◌∷◌, ◌++◌}
use core_lab.Data.Row.{Text}
use core_lab.Session.Write.{codes}
use core_lab.RateLimit.Window.{Store, failure_hit, is_locked, clear_failure}

pub record FailureLockManager : Type 0 where
  pub key_prefix : Text
  pub threshold : ℕ
  pub window_seconds : ℕ
  pub lock_seconds : ℕ

-- `LoginLockManager`
abbrev pub login_lock_manager : FailureLockManager
login_lock_manager = record {
  key_prefix = codes "rate_limit:login";
  threshold = 3;
  window_seconds = 300;
  lock_seconds = 300;
}

-- `SshChallengeLockManager`
abbrev pub ssh_challenge_lock_manager : FailureLockManager
ssh_challenge_lock_manager = record login_lock_manager {
  key_prefix = codes "rate_limit:ssh_challenge";
}

unfoldable pub count_key : FailureLockManager → Text → Text
count_key m subject = m.key_prefix ++ (codes ":fails:" ++ subject)

unfoldable pub lock_key : FailureLockManager → Text → Text
lock_key m subject = m.key_prefix ++ (codes ":lock:" ++ subject)

unfoldable pub subject_locked : FailureLockManager → Text → (now_ms : ℕ) → Store → Bool × Store
subject_locked m subject = is_locked (lock_key m subject)

-- Whether the failure tripped the lock.
unfoldable pub record_failure : FailureLockManager → Text → (now_ms : ℕ) → Store → Bool × Store
record_failure m subject =
    failure_hit (count_key m subject) (lock_key m subject) m.threshold m.window_seconds
      m.lock_seconds

unfoldable pub record_success : FailureLockManager → Text → Store → Store
record_success m subject = clear_failure (count_key m subject) (lock_key m subject)
