-- ===== src/Session/Write.antt =====
-- The side records of an action: `audit_service.write`, `notification_service.create_notification`
-- and the frames that reach the owner's sockets. None of them raises.
pub mod Dedup
use Prim.Native.Char.{code}
use Prim.Native.String.{String}
use core_lab.Prelude.{
  ℕ, ◌-◌, ◌≡◌, Bool, true, false, ◌&&◌, none, some, List, [], ◌∷◌, ◌++◌, arith, ◌==◌, leb, some_of,
  if◌then◌else◌,
}
use core_lab.Data.Row.{Text, Instant, seconds, Reservation}
use core_lab.Session.Tables.{
  Session, AuditLog, Notification, NotificationType, CtaUrl, Change, Frame, Push,
  reservation_started, reservation_completed, reservation_failed, reservation_cancelled_by_other,
  script_started, script_completed, script_failed, script_killed,
}
use core_lab.Session.Exec.{Exec, modify}

-- A text literal as code points.
abbrev pub codes : String → Text
codes String.[] = []
codes (String.◌∷◌ c s) = code c ∷ codes s

abbrev pub write_audit : AuditLog → Exec (Unit {0})
write_audit entry = modify (λ s. record s { audits = s.audits ++ entry ∷ [] })

abbrev type_eq : NotificationType → NotificationType → Bool
type_eq reservation_started reservation_started = true
type_eq reservation_completed reservation_completed = true
type_eq reservation_failed reservation_failed = true
type_eq reservation_cancelled_by_other reservation_cancelled_by_other = true
type_eq script_started script_started = true
type_eq script_completed script_completed = true
type_eq script_failed script_failed = true
type_eq script_killed script_killed = true
type_eq _ _ = false

abbrev dedup_window_seconds : ℕ
dedup_window_seconds = 60

-- `_dedup_hit`: a row for the same recipient, type and reservation in the last minute.
unfoldable pub dedup_hit : Instant → Notification → List Notification → Bool
dedup_hit now n = some_of λ old.
    (old.recipient_user_id == n.recipient_user_id && type_eq old.type n.type)
    && (leb (now - seconds dedup_window_seconds) old.created_at
        && (old.reservation_id == n.reservation_id))

-- The session after a notification: a duplicate is neither stored nor pushed.
unfoldable pub notified : Notification → Session → Session
unfolding dedup_hit
notified n s = if dedup_hit s.clock n s.notifications then s else record s {
  notifications = s.notifications ++ record n { created_at = s.clock } ∷ [];
  pushes =
      s.pushes
      ++ Push.new_notification n.recipient_user_id (record n { created_at = s.clock }) ∷ [];
}

abbrev pub create_notification : Notification → Exec (Unit {0})
create_notification n = modify (notified n)

-- `_reservation_cta_url`
unfoldable pub reservation_cta_url : Session → Reservation → CtaUrl
reservation_cta_url s row = elim (s.links row.account_link_id) [
  | none ↦ CtaUrl.all_reservations
  | some link ↦ CtaUrl.account_reservations link.physical_account_id row.id
]

-- `_serialize_reservation_for_ws`
unfoldable pub serialize_reservation : Reservation → Change → Frame
serialize_reservation row change = record {
  reservation_id = row.id;
  change = change;
  status = row.status;
  user_id = row.user_id;
  server_id = row.server_id;
  gpu_id = row.gpu_id;
  account_link_id = row.account_link_id;
  group_id = row.group_id;
  start_at = row.start_at;
  end_at = row.end_at;
  gpu_memory_mb = row.gpu_memory_mb;
  gpu_compute_share_pct = row.gpu_compute_share_pct;
  cancelled_at = row.cancelled_at;
  cancellation_reason = row.cancellation_reason;
}

-- `_push_reservation_lifecycle`: a failure of the socket is logged and dropped.
abbrev pub push_lifecycle : Reservation → Change → Exec (Unit {0})
push_lifecycle row change = modify (λ s. record s {
  pushes = s.pushes ++ Push.status_change row.user_id (serialize_reservation row change) ∷ [];
})

-- A notification touches no table but its own.
pub reservations-notified :
    (n : Notification) (s : Session) → (notified n s).reservations ≡ s.reservations
unfolding notified
reservations-notified n s = ground arith
