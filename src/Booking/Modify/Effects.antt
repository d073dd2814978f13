-- ===== src/Booking/Modify/Effects.antt =====
-- Editing a reservation, and the state machines of the rows.
use core_lab.Prelude.{◌≡◌, refl, Option, none, some, every, arith}
use core_lab.Data.Row.{Reservation, row_ok}
use core_lab.Data.Error.{require, integrity_error}
use core_lab.Session.Tables.{Session, find, update}
use core_lab.Session.Exec.{flush}
use core_lab.Session.Rows.{find-update}
use core_lab.Session.Rule.{Takes, query-Takes}
use core_lab.Booking.Validate.{script_size}
use core_lab.Booking.Modify.{
  Edit, modify_reservation, edit_locked, edit_row, move_window, edit_script, edit_script_start,
  edit_runtime, check_window, script_start_in, may_edit,
}
use core_lab.Lifecycle.FollowEvents.{Found, lookup-Found}
use core_lab.Lifecycle.Moves.{Follows-same, Moves, Moves-refl, Moves-trans, Moves-update}

-- The rows that an edit writes are versions of the row: same key, same status columns.
pub record Version (row x : Reservation) : Type 0 where
  pub id : x.id ≡ row.id
  pub status : x.status ≡ row.status
  pub script_status : x.script_status ≡ row.script_status

-- The session after a version of the row has been written in its place.
abbrev pub put : Reservation → Reservation → Session → Session
put row x s = record s { reservations = update row.id (λ _. x) s.reservations }

module _ (row x y : Reservation) (s : Session) (v : Version row x) (w : Version row y)
    (found : find row.id s.reservations ≡ some x) where
  put-Moves : Moves s.reservations (put row y s).reservations
  put-Moves =
      Moves-update row.id (λ _. y) s.reservations (λ r h. w.id)
        (λ r e.
          Follows-same r y (ground (arith, e, found, v.status, w.status))
            (ground (arith, e, found, v.script_status, w.script_status)))

  pub find-put : find row.id (put row y s).reservations ≡ some y
  find-put = ground (arith, find-update row.id row.id (λ _. y) s.reservations (λ r h. w.id), found)

pub move_window-Version : (e : Edit) (row : Reservation) → Version row (move_window e row)
move_window-Version e row = record { id = refl; status = refl; script_status = refl }

edit_script-Version :
    (e : Edit) (row x : Reservation) → Version row x → Version row (edit_script e x)
edit_script-Version e row x v = record {
  id = ground (arith, v.id);
  status = ground (arith, v.status);
  script_status = ground (arith, v.script_status);
}

edited-Version :
    (e : Edit) (row x : Reservation)
    → Version row x
    → Version row (edit_runtime e (edit_script_start e x))
edited-Version e row x v = record {
  id = ground (arith, v.id);
  status = ground (arith, v.status);
  script_status = ground (arith, v.script_status);
}

edit_row-Moves :
    (e : Edit) (row : Reservation) (s : Session)
    → find row.id s.reservations ≡ some row
    → Takes Moves (edit_row e row) s
unfolding edit_row flush
edit_row-Moves e row s found =
    Moves-trans
      (put-Moves row row moved s (record { id = refl; status = refl; script_status = refl }) v₁
        found)
      (query-Takes Moves (check_window e moved) _ s₁ Moves-refl (
        query-Takes Moves (λ s'. script_size e.new_script) _ s₁ Moves-refl
          (Moves-trans (put-Moves row moved scripted s₁ v₁ v₂ at₁) (
            query-Takes Moves (λ s'. script_start_in e.new_script_scheduled_start_at scripted) _ s₂
              Moves-refl
              (Moves-trans (put-Moves row scripted edited s₂ v₂ v₃ at₂) (
                query-Takes Moves (λ s'. require (every row_ok s'.reservations) integrity_error) _
                  s₃ Moves-refl (Moves-refl s₃.reservations)))))))
  where
    moved : Reservation
    moved = move_window e row

    scripted : Reservation
    scripted = edit_script e moved

    edited : Reservation
    edited = edit_runtime e (edit_script_start e scripted)

    s₁ : Session
    s₁ = put row moved s

    s₂ : Session
    s₂ = put row scripted s₁

    s₃ : Session
    s₃ = put row edited s₂

    v₁ : Version row moved
    v₁ = move_window-Version e row

    v₂ : Version row scripted
    v₂ = edit_script-Version e row moved v₁

    v₃ : Version row edited
    v₃ = edited-Version e row scripted v₂

    at₁ : find row.id s₁.reservations ≡ some moved
    at₁ =
        find-put row row moved s (record { id = refl; status = refl; script_status = refl }) v₁
          found

    at₂ : find row.id s₂.reservations ≡ some scripted
    at₂ = find-put row moved scripted s₁ v₁ v₂ at₁

edit_locked-Moves :
    (e : Edit) (o : Option Reservation) (s : Session) → Found s o → Takes Moves (edit_locked e o) s
unfolding edit_locked
edit_locked-Moves e none s f = Moves-refl s.reservations
edit_locked-Moves e (some row) s f =
    query-Takes Moves (λ s'. may_edit e row) (edit_row e row) s Moves-refl
      (edit_row-Moves e row s (f row refl))

pub modify_reservation-Moves : (e : Edit) (s : Session) → Takes Moves (modify_reservation e) s
unfolding modify_reservation
modify_reservation-Moves e s =
    edit_locked-Moves e (find e.reservation_id s.reservations) s (lookup-Found e.reservation_id s)
