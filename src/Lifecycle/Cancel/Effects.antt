-- ===== src/Lifecycle/Cancel/Effects.antt =====
-- What cancelling one reservation leaves in the table, and what it returns.
use core_lab.Prelude.{
  ℕ, ◌≡◌, sym, ap, ◌∙◌, true, false, Bool, ◌&&◌, ◌||◌, not, some, [], ◌∷◌, ◌++◌, arith, ◌==◌, every,
  if◌then◌else◌,
}
use core_lab.Data.Status.{Status, status_in, terminal_statuses}
use core_lab.Data.Row.{Reservation, row_ok}
use core_lab.Data.Error.{Error, Result, ok, err}
use core_lab.Session.Tables.{NotificationType, Severity, Session, find, update}
use core_lab.Session.Exec.{flush}
use core_lab.Session.Rows.{find-update, id-find}
use core_lab.Booking.Conflict.{overlaps}
use core_lab.Session.Write.{reservations-notified}
use core_lab.Lifecycle.Cancel.{
  Cancel, cancel_entry, cancel_reservation, set_cancelled, may_cancel, notify_owner,
}
use core_lab.Lifecycle.Transition.{notice}
use core_lab.Lifecycle.Effects.{update_if}

notify_owner-quiet :
    (c : Cancel) (row : Reservation) (s : Session)
    → ((notify_owner c row s).0 ≡ ok tt) × ((notify_owner c row s).1.reservations ≡ s.reservations)
unfolding notify_owner
notify_owner-quiet c row s = ground (
  arith,
  reservations-notified
      (notice s row NotificationType.reservation_cancelled_by_other Severity.warn c.reason) s,
)

-- The guards pass.
abbrev pub cancellable : Cancel → Reservation → Bool
cancellable c row =
    not (status_in row.status terminal_statuses)
    && (c.actor_can_admin || row.user_id == c.actor_user_id)

module _ (c : Cancel) (n : ℕ) (s : Session) (row : Reservation)
    (found : find n s.reservations ≡ some row) where
  pub cancel_reservation_table :
      (cancel_reservation c n s).1.reservations
      ≡ update_if (cancellable c row) row.id (set_cancelled c s.clock) s.reservations
  unfolding cancel_reservation may_cancel flush
  cancel_reservation_table = ground (
    arith,
    notify_owner-quiet c row (record s {
      reservations = update row.id (set_cancelled c s.clock) s.reservations;
      audits = s.audits ++ cancel_entry c row ∷ [];
    }),
    found,
  )

  cancel_reservation_result : (cancel_reservation c n s).0 ≡ (
      if cancellable c row && every row_ok (update row.id (set_cancelled c s.clock) s.reservations)
      then ok (set_cancelled c s.clock row)
      else if cancellable c row
      then err Error.integrity_error
      else if status_in row.status terminal_statuses
      then err Error.reservation_error
      else err Error.cancel_not_permitted)
  unfolding cancel_reservation may_cancel flush
  cancel_reservation_result = ground (
    arith,
    notify_owner-quiet c row (record s {
      reservations = update row.id (set_cancelled c s.clock) s.reservations;
      audits = s.audits ++ cancel_entry c row ∷ [];
    }),
    found,
  )

  -- A cancel that returns was allowed.
  cancelled-cancellable :
      (r : Reservation) (s' : Session)
      → cancel_reservation c n s ≡ (ok r, s')
      → (cancellable c row ≡ true) × (r ≡ set_cancelled c s.clock row)
  cancelled-cancellable r s' h =
      ground
        (arith, sym cancel_reservation_result ∙ ap (λ (x : Result Reservation × Session). x.0) h)

module _ (c : Cancel) (n : ℕ) (s s' : Session) (row r : Reservation) where
  found_cancelled :
      find n s.reservations ≡ some row
      → cancel_reservation c n s ≡ (ok r, s')
      → find n s'.reservations ≡ some (set_cancelled c s.clock row)
  found_cancelled found h =
      let (may, same) = cancelled-cancellable c n s row found r s' h in
      ap (find n) (
        sym (ap (λ (x : Result Reservation × Session). x.1.reservations) h)
        ∙ cancel_reservation_table c n s row found)
      ∙ ground (
        arith,
        may,
        found,
        id-find n s.reservations row found,
        find-update row.id n (set_cancelled c s.clock) s.reservations (λ x e. e),
      )

  -- If a cancel of a reservation that is found returns a row, that row is the one found afterwards,
  -- it is cancelled with the actor, the time and the reason, it is in no GPU's window any more, and
  -- any further cancel of it is refused because it has ended.
  pub cancel_reservation-frees :
      find n s.reservations ≡ some row
      → cancel_reservation c n s ≡ (ok r, s')
      → (find n s'.reservations ≡ some r)
        × (r.status ≡ Status.cancelled)
        × (r.cancelled_by_user_id ≡ some c.actor_user_id)
        × (r.cancelled_at ≡ some s.clock)
        × (r.cancellation_reason ≡ c.reason)
        × ((g a b : ℕ) → overlaps g a b r ≡ false)
        × ((d : Cancel) → (cancel_reservation d n s').0 ≡ err Error.reservation_error)
  cancel_reservation-frees found h =
      let (may, same) = cancelled-cancellable c n s row found r s' h in
      let there = found_cancelled found h in
      (
        there ∙ ap some (sym same),
        ap (λ (x : Reservation). x.status) same,
        ap (λ (x : Reservation). x.cancelled_by_user_id) same,
        ap (λ (x : Reservation). x.cancelled_at) same,
        ap (λ (x : Reservation). x.cancellation_reason) same,
        λ g a b. ground (arith, same),
        λ d. ground (arith, cancel_reservation_result d n s' (set_cancelled c s.clock row) there),
      )
