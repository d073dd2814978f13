-- ===== src/Session/Exec.antt =====
-- Actions on a session that may raise. What was written before a raise stays in the session: it is
-- the request's end that commits it or rolls it back.
use core_lab.Prelude.{ℕ, Bool, Option, every}
use core_lab.Data.Row.{Reservation, row_ok}
use core_lab.Data.Error.{Error, Result, ok, err, require, integrity_error}
use core_lab.Session.Tables.{Session, find, update}

abbrev pub Exec : Type 0 → Type 0
Exec A = Session → Result A × Session

abbrev pub continue : {A B : Type 0} → Result A → (A → Exec B) → Exec B
continue (ok a) f s = f a s
continue (err e) f s = (err e, s)

infixl 5 ◌>>=◌ ◌>>◌
abbrev pub ◌>>=◌ : {A B : Type 0} → Exec A → (A → Exec B) → Exec B
◌>>=◌ m f s = let (r, s') = m s in continue r f s'

abbrev pub ◌>>◌ : {B : Type 0} → Exec (Unit {0}) → Exec B → Exec B
m >> k = m >>= λ _. k

abbrev pub pure : {A : Type 0} → A → Exec A
pure a s = (ok a, s)

abbrev pub raise : {A : Type 0} → Error → Exec A
raise e s = (err e, s)

-- A computation that only reads the session.
abbrev pub query : {A : Type 0} → (Session → Result A) → Exec A
query f s = (f s, s)

abbrev pub gets : {A : Type 0} → (Session → A) → Exec A
gets f s = (ok (f s), s)

abbrev pub modify : (Session → Session) → Exec (Unit {0})
modify f s = (ok tt, f s)

-- `if not test: raise e`
abbrev pub guard : Bool → Error → Exec (Unit {0})
guard b e = query (λ _. require b e)

-- Assignment to attributes of the row with primary key `n`.
abbrev pub assign : ℕ → (Reservation → Reservation) → Exec (Unit {0})
assign n f = modify (λ s. record s { reservations = update n f s.reservations })

-- `session.flush()`: the database refuses rows that break a CHECK constraint or have a text
-- that is too long for its column. The error stands for both.
unfoldable pub flush : Exec (Unit {0})
flush = query (λ s. require (every row_ok s.reservations) integrity_error)

-- `session.get(Reservation, n)`, or the row read again under a lock
abbrev pub get_row : ℕ → Exec (Option Reservation)
get_row n = gets (λ s. find n s.reservations)
