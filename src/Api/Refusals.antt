-- ===== src/Api/Refusals.antt =====
-- What a refused request leaves behind.
use core_lab.Prelude.{ℕ, ◌≡◌, true, some, arith, every}
use core_lab.Data.Row.{Reservation, row_ok}
use core_lab.Data.Error.{Error, ok, err}
use core_lab.Session.Tables.{Session, find}
use core_lab.Session.Exec.{flush}
use core_lab.Booking.Create.{BatchRequest, create_reservation_batch}
use core_lab.Booking.Create.Run.{announce-ok, inserted, added}
use core_lab.Booking.Modify.{
  Edit, modify_reservation, edit_row, may_edit, move_window, check_window,
}
use core_lab.Booking.Modify.Effects.{put}
use core_lab.Api.Request.{is_http, commit, settle_request, request}

-- A request to create a batch that is answered with an error has changed nothing, whether a check
-- refused it or the database did.
pub refused_batch-unchanged :
    (req : BatchRequest) (group_id : ℕ) (s s' : Session) (e : Error)
    → request (create_reservation_batch req group_id) s ≡ (err e, s')
    → s' ≡ s
unfolding request settle_request commit create_reservation_batch flush
refused_batch-unchanged req group_id s s' e h =
    ground (arith, announce-ok req (inserted req group_id s) (added req group_id s))

-- Where a row is found and may be edited, the checks of its moved window raise an error that the
-- endpoint answers with an HTTP status, and the table with the moved row meets its constraints,
-- the answer is that error and the row is stored as moved.
pub refused_edit-stored :
    (e : Edit) (s : Session) (row : Reservation) (x : Error)
    → find e.reservation_id s.reservations ≡ some row
    → may_edit e row ≡ ok tt
    → check_window e (move_window e row) (put row (move_window e row) s) ≡ err x
    → is_http x ≡ true
    → every row_ok (put row (move_window e row) s).reservations ≡ true
    → request (modify_reservation e) s ≡ (err x, put row (move_window e row) s)
unfolding request settle_request commit modify_reservation edit_row
refused_edit-stored e s row x found may refused http valid =
    ground (arith, found, may, refused, http, valid)
