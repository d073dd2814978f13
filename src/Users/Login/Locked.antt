-- ===== src/Users/Login/Locked.antt =====
-- Failed logins lock the account's name for the address they come from.
use core_lab.Prelude.{
  ℕ, ◌+◌, ◌≤◌, ◌<◌, ◌≡◌, refl, ap, ◌∙◌, true, Option, none, some, List, [], ◌∷◌, arith, select, All,
}
use core_lab.Data.Row.{Text, Instant}
use core_lab.RateLimit.Window.{Store, is_fresh, is_locked}
use core_lab.RateLimit.Window.Count.{count}
use core_lab.RateLimit.Lock.{login_lock_manager, count_key, subject_locked, record_failure}
use core_lab.RateLimit.Lock.Locked.{Logged, record_failure-locked}
use core_lab.Users.Tables.{User, Outside, Db, ServiceError, Outcome, one_or_none, now}
use core_lab.Users.Login.{LoginRequest, authenticate, lock_subject, login_as, with_hash, is_called}

-- The same session at another instant.
abbrev pub at : Instant → Db → Db
at instant db = record db { accounts = record db.accounts { clock = instant } }

module _ (outside : Outside) (payload : LoginRequest) (ip : Option Text) (db : Db) where
  abbrev subject : Text
  subject = lock_subject payload ip

  abbrev looked_at : Store
  looked_at = (subject_locked login_lock_manager subject (now db) db.locks).1

  abbrev db' : Db
  db' = record db { locks = looked_at }

  -- A failure of the credentials is recorded.
  failure-locks :
      (authenticate outside payload ip db).0 ≡ Outcome.failed ServiceError.invalid_credentials
      → (authenticate outside payload ip db).1.locks
        ≡ (record_failure login_lock_manager subject (now db) looked_at).1
  unfolding authenticate
  failure-locks h =
      ground (arith, h, by_rows (select (is_called outside payload.username) db.users))
    where
      by_hash :
          (u : User) (hash : Option Text)
          → (with_hash outside subject payload u db' hash).0
            ≡ Outcome.failed ServiceError.invalid_credentials
          → (with_hash outside subject payload u db' hash).1.locks
            ≡ (record_failure login_lock_manager subject (now db) looked_at).1
      by_hash u none h = refl
      by_hash u (some hash) h = ground (arith, h)

      by_rows :
          (rows : List User)
          → (login_as outside subject payload db' (one_or_none rows)).0
            ≡ Outcome.failed ServiceError.invalid_credentials
          → (login_as outside subject payload db' (one_or_none rows)).1.locks
            ≡ (record_failure login_lock_manager subject (now db) looked_at).1
      by_rows [] h = refl
      by_rows (u ∷ []) h = by_hash u u.password_hash h
      by_rows (u ∷ v ∷ rows) h = ground (arith, h)

  looked_at-buckets : looked_at.buckets ≡ db.locks.buckets
  unfolding subject_locked is_locked
  looked_at-buckets = ground arith

locked-refused :
    (outside : Outside) (payload : LoginRequest) (ip : Option Text) (db : Db)
    → (subject_locked login_lock_manager (lock_subject payload ip) (now db) db.locks).0 ≡ true
    → (authenticate outside payload ip db).0 ≡ Outcome.failed ServiceError.account_locked
unfolding authenticate
locked-refused outside payload ip db h = ground (arith, h)

-- Where a login fails for its credentials, and the failures of its name and address in the 300
-- seconds up to and with it are at least three, any login of that name from that address is refused
-- as locked for 300 seconds, whatever its password and whatever then became of the users.
pub authenticate-locked :
    (outside : Outside) (payload : LoginRequest) (ip : Option Text) (log : List ℕ) (db : Db)
    → Logged login_lock_manager (lock_subject payload ip) log db.locks
    → All (λ t. t ≤ now db) log
    → (authenticate outside payload ip db).0 ≡ Outcome.failed ServiceError.invalid_credentials
    → 3 ≤ count (is_fresh 300 (now db)) log + 1
    → (later : Instant) (users : List User) (password : Text) → later < now db + 300000
    → (authenticate outside
        (record payload { password = password })
        ip
        (at later (record (authenticate outside payload ip db).1 { users = users }))).0
      ≡ Outcome.failed ServiceError.account_locked
authenticate-locked outside payload ip log db logged order failed_ often later users password soon =
    locked-refused outside (record payload { password = password }) ip
      (at later (record (authenticate outside payload ip db).1 { users = users })) is_shut
  where
    shut :
        (subject_locked login_lock_manager
          (lock_subject payload ip)
          later
          (record_failure login_lock_manager
            (lock_subject payload ip)
            (now db)
            (looked_at outside payload ip db)).1).0
        ≡ true
    shut = ground (
      arith,
      often,
      soon,
      (record_failure-locked login_lock_manager (lock_subject payload ip) log (now db) later
          (looked_at outside payload ip db)
          (ap (λ b. b (count_key login_lock_manager (lock_subject payload ip)))
              (looked_at-buckets outside payload ip db)
            ∙ logged)
          order).1,
    )

    is_shut :
        (subject_locked login_lock_manager
          (lock_subject payload ip)
          later
          (authenticate outside payload ip db).1.locks).0
        ≡ true
    is_shut =
        ap (λ (s : Store). (subject_locked login_lock_manager (lock_subject payload ip) later s).0)
          (failure-locks outside payload ip db failed_)
        ∙ shut
