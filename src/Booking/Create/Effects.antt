-- ===== src/Booking/Create/Effects.antt =====
-- Creating a batch, and the state machines of the rows.
use core_lab.Prelude.{ℕ, ◌≡◌, sym, subst, some, List, [], ◌∷◌, ◌++◌, arith, every}
use core_lab.Data.Row.{Reservation, row_ok}
use core_lab.Data.Error.{require, integrity_error}
use core_lab.Session.Tables.{Session, find}
use core_lab.Session.Exec.{flush, pure}
use core_lab.Session.Rule.{Takes, bind-Takes, query-Takes}
use core_lab.Booking.Create.{BatchRequest, check_batch, announce, create_reservation_batch}
use core_lab.Booking.Create.Run.{announce-ok, inserted, added}
use core_lab.Lifecycle.Moves.{Follows-refl, Moves, Moves-refl, Moves-trans}

find-append :
    (n : ℕ) (rows new : List Reservation) (r : Reservation)
    → find n rows ≡ some r
    → find n (rows ++ new) ≡ some r
unfolding find
find-append n [] new r h = cc
find-append n (x ∷ rows) new r h = ground (arith, find-append n rows new r)

append-Moves : (rows new : List Reservation) → Moves rows (rows ++ new)
append-Moves rows new = record { at = λ n r h. (r, find-append n rows new r h, Follows-refl r) }

pub create_reservation_batch-Moves :
    (req : BatchRequest) (group_id : ℕ) (s : Session)
    → Takes Moves (create_reservation_batch req group_id) s
unfolding create_reservation_batch flush
create_reservation_batch-Moves req group_id s = query-Takes Moves (check_batch req) _ s Moves-refl (
    Moves-trans (append-Moves s.reservations (inserted req group_id s)) (
      query-Takes Moves (λ s'. require (every row_ok s'.reservations) integrity_error) _
        (added req group_id s) Moves-refl
        (bind-Takes Moves (λ a b c p q. Moves-trans p q) (announce req (inserted req group_id s))
          (λ _. pure (inserted req group_id s)) (added req group_id s)
          (subst (Moves (added req group_id s).reservations)
            (sym (announce-ok req (inserted req group_id s) (added req group_id s)).1)
            (Moves-refl (added req group_id s).reservations))
          (λ _ s' _. Moves-refl s'.reservations))))
