-- ===== src/Booking/Create/Run.antt =====
-- A call of `create_reservation_batch`, from its checks to its result.
use core_lab.Prelude.{ℕ, ◌+◌, ◌≡◌, refl, true, List, [], ◌∷◌, ◌++◌, arith, length, every}
use core_lab.Data.Row.{Reservation, row_ok}
use core_lab.Data.Error.{Error, ok, err}
use core_lab.Session.Tables.{Session}
use core_lab.Session.Exec.{flush}
use core_lab.Booking.Create.{BatchRequest, check_batch, rows_of, announce, create_reservation_batch}

pub announce-ok :
    (req : BatchRequest) (rows : List Reservation) (s : Session)
    → ((announce req rows s).0 ≡ ok tt)
      × ((announce req rows s).1.reservations ≡ s.reservations)
      × ((announce req rows s).1.gpus ≡ s.gpus)
unfolding announce
announce-ok req [] s = (refl, refl, refl)
announce-ok req (row ∷ rows) s = announce-ok req rows _

-- The rows that a call inserts.
abbrev pub inserted : BatchRequest → ℕ → Session → List Reservation
inserted req group_id s = rows_of req group_id true s.next_id req.items

-- A call that returns passed every check, against the tables as they were.
pub record Created (req : BatchRequest) (group_id : ℕ) (s s' : Session) : Type 0 where
  pub checked : check_batch req s ≡ ok tt
  pub valid : every row_ok (s.reservations ++ inserted req group_id s) ≡ true
  pub reservations : s'.reservations ≡ s.reservations ++ inserted req group_id s
  pub gpus : s'.gpus ≡ s.gpus

-- The session as the rows are added and flushed, before the audit rows.
abbrev pub added : BatchRequest → ℕ → Session → Session
added req group_id s = record s {
  reservations = s.reservations ++ inserted req group_id s;
  next_id = s.next_id + length (inserted req group_id s);
}

-- The session that a successful call leaves.
abbrev pub outcome : BatchRequest → ℕ → Session → Session
outcome req group_id s = (announce req (inserted req group_id s) (added req group_id s)).1

pub create-Created :
    (req : BatchRequest) (group_id : ℕ) (s s' : Session) (rows : List Reservation)
    → create_reservation_batch req group_id s ≡ (ok rows, s')
    → Created req group_id s s'
unfolding create_reservation_batch flush
create-Created req group_id s s' rows h =
    ground (arith, announce-ok req (inserted req group_id s) (added req group_id s))

-- If a batch passes the checks and the table with its rows satisfies the constraints, the call
-- returns those rows, in the session that they have been added to and announced in.
pub create-ok :
    (req : BatchRequest) (group_id : ℕ) (s : Session)
    → check_batch req s ≡ ok tt
    → every row_ok (s.reservations ++ inserted req group_id s) ≡ true
    → create_reservation_batch req group_id s
      ≡ (ok (inserted req group_id s), outcome req group_id s)
unfolding create_reservation_batch flush
create-ok req group_id s checked valid =
    ground (arith, announce-ok req (inserted req group_id s) (added req group_id s))

-- A batch that is refused has written nothing.
pub create-refused :
    (req : BatchRequest) (group_id : ℕ) (s : Session) (e : Error)
    → check_batch req s ≡ err e
    → create_reservation_batch req group_id s ≡ (err e, s)
unfolding create_reservation_batch
create-refused req group_id s e h = ground arith
