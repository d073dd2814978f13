-- ===== src/Scheduler/Loop.antt =====
-- Loops of the tick over the rows of a test, whose rounds all return.
pub mod Runs
use core_lab.Prelude.{
  ℕ, ◌≡◌, refl, sym, ap, subst, ◌∙◌, Bool, true, false, ◌&&◌, not, Option, none, some, List, [],
  ◌∷◌, ◌++◌, ◌==◌, ==_refl, arith, map, select, every, some_of, is_some, All, if◌then◌else◌,
}
use core_lab.Data.Row.{Server, Reservation, row_ok}
use core_lab.Data.Error.{Result, ok}
use core_lab.Session.Tables.{Session, find, update}
use core_lab.Session.Exec.{Exec, ◌>>=◌, pure}
use core_lab.Session.Rule.{bind-ok}
use core_lab.Session.Rows.{map_row, find-update, id-find}
use core_lab.Scheduler.Tick.{keys, server_lab_id, lab_of, on_row, for_row, for_rows}

-- Whether the row that a primary key finds passes the test, on a server of some lab.
abbrev pub on_found : (Reservation → Bool) → Session → Option Reservation → Bool
on_found test s none = false
on_found test s (some r) = test r && is_some (server_lab_id s r.server_id)

abbrev pub waits : (Reservation → Bool) → Session → ℕ → Bool
waits test s n = on_found test s (find n s.reservations)

abbrev pub passes : (Reservation → Bool) → Option Reservation → Bool
passes test none = false
passes test (some r) = test r

abbrev pub distinct : List ℕ → Bool
distinct [] = true
distinct (n ∷ ns) = not (some_of (λ k. k == n) ns) && distinct ns

-- A round of a loop over the rows of a test, from a table that meets its constraints, where the row
-- is not bad: it returns, and makes one assignment to the row, which does not make it bad.
pub record Round {A : Type 0} (test bad : Reservation → Bool)
    (f : Session → Reservation → Reservation → Reservation) (body : Reservation → ℕ → Exec (List A))
    : Type 0 where
  pub returns :
      (row : Reservation) (lab_id : ℕ) (s : Session)
      → test row ≡ true
      → bad row ≡ false
      → every row_ok (update row.id (f s row) s.reservations) ≡ true
      → (a : List A) × ((body row lab_id s).0 ≡ ok a)
  pub table :
      (row : Reservation) (lab_id : ℕ) (s : Session)
      → test row ≡ true
      → bad row ≡ false
      → every row_ok (update row.id (f s row) s.reservations) ≡ true
      → ((body row lab_id s).1.reservations ≡ update row.id (f s row) s.reservations)
        × ((body row lab_id s).1.servers ≡ s.servers)
  pub same_id : (s : Session) (row r : Reservation) → (f s row r).id ≡ r.id
  pub same_server : (s : Session) (row r : Reservation) → (f s row r).server_id ≡ r.server_id
  pub same_ok : (s : Session) (row r : Reservation) → row_ok (f s row r) ≡ row_ok r
  pub not_bad :
      (s : Session) (row : Reservation)
      → test row ≡ true
      → bad (f s row row) ≡ true
      → bad row ≡ true

pub member :
    (test : Reservation → Bool) (m : ℕ) (rows : List Reservation)
    → passes test (find m rows) ≡ true
    → some_of (λ k. k == m) (map (λ r. r.id) (select test rows)) ≡ true
unfolding find
member test m [] h = h
member test m (r ∷ rows) h = ground (arith, h, member test m rows)

pub every-update :
    (n : ℕ) (f : Reservation → Reservation) (rows : List Reservation)
    → ((r : Reservation) → row_ok (f r) ≡ row_ok r)
    → every row_ok rows ≡ true
    → every row_ok (update n f rows) ≡ true
unfolding update
every-update n f [] same h = h
every-update n f (r ∷ rows) same h = ground (arith, h, same r, every-update n f rows same)

pub ids-update :
    (n : ℕ) (f : Reservation → Reservation) (rows : List Reservation)
    → ((r : Reservation) → (f r).id ≡ r.id)
    → map (λ x. x.id) (update n f rows) ≡ map (λ x. x.id) rows
unfolding update
ids-update n f [] same = refl
ids-update n f (r ∷ rows) same = ground (arith, same r, ids-update n f rows same)

pub unselected :
    (test : Reservation → Bool) (m : ℕ) (rows : List Reservation)
    → some_of (λ k. k == m) (map (λ r. r.id) rows) ≡ false
    → some_of (λ k. k == m) (map (λ r. r.id) (select test rows)) ≡ false
unselected test m [] h = refl
unselected test m (r ∷ rows) h = ground (arith, h, unselected test m rows)

pub distinct-select :
    (test : Reservation → Bool) (rows : List Reservation)
    → distinct (map (λ r. r.id) rows) ≡ true
    → distinct (map (λ r. r.id) (select test rows)) ≡ true
distinct-select test [] h = refl
distinct-select test (r ∷ rows) h =
    ground (arith, h, distinct-select test rows, unselected test r.id rows)

-- The rows of the keys that are left pass the test.
abbrev pub Ready : (Reservation → Bool) → List Reservation → List ℕ → Type 0
Ready test rows = All (λ n. passes test (find n rows) ≡ true)

more-Ready :
    (test : Reservation → Bool) (r : Reservation) (rows : List Reservation) (ns : List ℕ)
    → some_of (λ k. k == r.id) ns ≡ false
    → Ready test rows ns
    → Ready test (r ∷ rows) ns
unfolding find
more-Ready test r rows [] apart h = tt
more-Ready test r rows (n ∷ ns) apart h =
    (ground (arith, apart, h.0), more-Ready test r rows ns (ground (arith, apart)) h.1)

pub keys-Ready :
    (test : Reservation → Bool) (rows : List Reservation)
    → distinct (map (λ r. r.id) rows) ≡ true
    → Ready test rows (map (λ r. r.id) (select test rows))
unfolding find
keys-Ready test [] h = tt
keys-Ready test (r ∷ rows) h = go (test r) refl (
    more-Ready test r rows (map (λ r. r.id) (select test rows))
      (ground (arith, h, unselected test r.id rows)) (keys-Ready test rows (ground (arith, h))))
  where
    go :
        (b : Bool)
        → test r ≡ b
        → Ready test (r ∷ rows) (map (λ r. r.id) (select test rows))
        → Ready test
            (r ∷ rows)
            (map (λ r. r.id) (if b then r ∷ select test rows else select test rows))
    go true e rest = (ground (arith, e, ==_refl r.id), rest)
    go false e rest = rest

pub update-Ready :
    (test : Reservation → Bool) (n : ℕ) (f : Reservation → Reservation) (rows : List Reservation)
    (ns : List ℕ)
    → ((r : Reservation) → (f r).id ≡ r.id)
    → some_of (λ k. k == n) ns ≡ false
    → Ready test rows ns
    → Ready test (update n f rows) ns
update-Ready test n f rows [] same apart h = tt
update-Ready test n f rows (m ∷ ns) same apart h = (
  ground (arith, apart, h.0, find-update n m f rows (λ r e. same r ∙ e)),
  update-Ready test n f rows ns same (ground (arith, apart)) h.1,
)
