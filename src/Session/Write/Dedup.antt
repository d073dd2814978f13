-- ===== src/Session/Write/Dedup.antt =====
-- Notifications that repeat another (`_dedup_hit`).
use core_lab.Prelude.{
  ◌-◌, ◌+◌, ◌≤◌, ◌≡◌, refl, Bool, true, false, ◌&&◌, ◌||◌, List, [], ◌∷◌, ◌++◌, arith, ◌==◌, leb,
  some_of,
}
use core_lab.Data.Row.{Instant, seconds}
use core_lab.Session.Tables.{Session, Notification, NotificationType}
use core_lab.Session.Write.{dedup_hit, notified, type_eq, dedup_window_seconds}

type_eq_refl : (t : NotificationType) → type_eq t t ≡ true
type_eq_refl t = ground arith

some_of-append {ℓ} :
    {A : Type ℓ} (p : A → Bool) (xs ys : List A)
    → some_of p (xs ++ ys) ≡ (some_of p xs || some_of p ys)
some_of-append p [] ys = refl
some_of-append p (x ∷ xs) ys = ground (arith, some_of-append p xs ys)

-- A notification that has just been stored is a hit for itself, for a minute.
hit-stored :
    (n : Notification) (at later : Instant) (rows : List Notification)
    → later ≤ at + seconds dedup_window_seconds
    → dedup_hit later n (rows ++ record n { created_at = at } ∷ []) ≡ true
unfolding dedup_hit
hit-stored n at later rows h = ground (
  arith,
  some_of-append
      (λ (old : Notification).
        (old.recipient_user_id == n.recipient_user_id && type_eq old.type n.type)
        && (leb (later - seconds dedup_window_seconds) old.created_at
            && (old.reservation_id == n.reservation_id)))
      rows (record n { created_at = at } ∷ []),
  type_eq_refl n.type,
)

-- A notification that was stored and is created again at most a minute later is neither stored
-- nor pushed: the session stays as it is.
notified-again :
    (n : Notification) (s : Session) (later : Instant)
    → dedup_hit s.clock n s.notifications ≡ false
    → later ≤ s.clock + seconds dedup_window_seconds
    → notified n (record (notified n s) { clock = later }) ≡ record (notified n s) { clock = later }
unfolding notified
notified-again n s later new h = ground (arith, new, hit-stored n s.clock later s.notifications h)
