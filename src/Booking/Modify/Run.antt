-- ===== src/Booking/Modify/Run.antt =====
-- What an edit has done when it returns.
use core_lab.Prelude.{ℕ, ◌≡◌, refl, true, not, some, List, [], ◌∷◌, ◌++◌, arith, ◌==◌, every}
use core_lab.Data.Row.{Reservation, row_ok}
use core_lab.Data.Error.{ok}
use core_lab.Session.Tables.{Session, find, update}
use core_lab.Session.Exec.{flush}
use core_lab.Booking.Modify.{
  Edit, modify_reservation, edit_locked, edit_row, move_window, edit_script, edit_script_start,
  edit_runtime, check_window, others,
}
use core_lab.Booking.Modify.Effects.{put}

-- No row of the list has the key.
abbrev pub Without : ℕ → List Reservation → Type 0
Without n rows = every (λ r. not (r.id == n)) rows ≡ true

update-Without :
    (n : ℕ) (f : Reservation → Reservation) (rows : List Reservation)
    → Without n rows
    → update n f rows ≡ rows
unfolding update
update-Without n f [] h = refl
update-Without n f (r ∷ rows) h = ground (arith, update-Without n f rows)

-- The one row with its key.
module _ (n : ℕ) (before after : List Reservation) (h : Without n before)
    (k : Without n after) where
  pub update-one :
      (f : Reservation → Reservation) (r : Reservation)
      → r.id ≡ n
      → update n f (before ++ r ∷ after) ≡ before ++ f r ∷ after
  unfolding update
  update-one f r e = go before h
    where
      go :
          (rows : List Reservation)
          → Without n rows
          → update n f (rows ++ r ∷ after) ≡ rows ++ f r ∷ after
      go [] w = ground (arith, e, update-Without n f after k)
      go (x ∷ rows) w = ground (arith, go rows)

  pub find-one : (r : Reservation) → r.id ≡ n → find n (before ++ r ∷ after) ≡ some r
  unfolding find
  find-one r e = go before h
    where
      go : (rows : List Reservation) → Without n rows → find n (rows ++ r ∷ after) ≡ some r
      go [] w = ground (arith, e)
      go (x ∷ rows) w = ground (arith, go rows)

  pub others-one : (r : Reservation) → r.id ≡ n → others n (before ++ r ∷ after) ≡ before ++ after
  others-one r e = go before h
    where
      rest : (rows : List Reservation) → Without n rows → others n rows ≡ rows
      rest [] w = refl
      rest (x ∷ rows) w = ground (arith, rest rows)

      go : (rows : List Reservation) → Without n rows → others n (rows ++ r ∷ after) ≡ rows ++ after
      go [] w = ground (arith, e, rest after k)
      go (x ∷ rows) w = ground (arith, go rows)

-- The row as it stands at the end.
abbrev pub edited : Edit → Reservation → Reservation
edited e row = edit_runtime e (edit_script_start e (edit_script e (move_window e row)))

-- The session that the three assignments leave.
abbrev pub written : Edit → Reservation → Session → Session
written e row s =
    put row (edited e row)
      (put row (edit_script e (move_window e row)) (put row (move_window e row) s))

pub record Edited (e : Edit) (row : Reservation) (s s' : Session) : Type 0 where
  pub checked : check_window e (move_window e row) (put row (move_window e row) s) ≡ ok tt
  pub valid : every row_ok (written e row s).reservations ≡ true
  pub reservations : s'.reservations ≡ (written e row s).reservations
  pub gpus : s'.gpus ≡ s.gpus

pub modify-Edited :
    (e : Edit) (s s' : Session) (row row' : Reservation)
    → find e.reservation_id s.reservations ≡ some row
    → modify_reservation e s ≡ (ok row', s')
    → Edited e row s s'
unfolding modify_reservation edit_locked edit_row flush
modify-Edited e s s' row row' found h = record {
  checked = ground (arith, found);
  valid = ground (arith, found);
  reservations = ground (arith, found);
  gpus = ground (arith, found);
}
