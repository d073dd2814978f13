-- ===== src/Session/Rows.antt =====
-- Reading a row by its primary key after an assignment, and tables whose keys are distinct.
use core_lab.Prelude.{ℕ, ◌≡◌, Option, none, some, List, [], ◌∷◌, arith, ◌==◌, if◌then◌else◌}
use core_lab.Data.Row.{Reservation}
use core_lab.Session.Tables.{find, update}

-- The assignment leaves the primary key of the row that it is made to alone.
abbrev pub KeepsId : ℕ → (Reservation → Reservation) → Type 0
KeepsId n f = (r : Reservation) → r.id ≡ n → (f r).id ≡ n

abbrev pub map_row : (Reservation → Reservation) → Option Reservation → Option Reservation
map_row f none = none
map_row f (some r) = some (f r)

pub find-update :
    (n m : ℕ) (f : Reservation → Reservation) (rows : List Reservation)
    → KeepsId n f
    → find m (update n f rows) ≡ (if n == m then map_row f (find m rows) else find m rows)
unfolding find update
find-update n m f [] keep = ground arith
find-update n m f (r ∷ rows) keep = ground (arith, find-update n m f rows keep, keep r)

-- A row that is found has the key that it was looked up by.
pub id-find : (n : ℕ) (rows : List Reservation) (r : Reservation) → find n rows ≡ some r → r.id ≡ n
unfolding find
id-find n [] r h = cc
id-find n (x ∷ rows) r h = ground (arith, id-find n rows r)
