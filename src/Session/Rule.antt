-- ===== src/Session/Rule.antt =====
-- What an action does to the reservation table, as a relation that is closed under composition:
-- one rule for each way to build an action.
use core_lab.Prelude.{List, Bool, true, false, if◌then◌else◌, ◌≡◌, refl, sym, ap, subst}
use core_lab.Data.Row.{Reservation}
use core_lab.Data.Error.{Check, Error, Result, ok, err}
use core_lab.Session.Tables.{Session}
use core_lab.Session.Exec.{Exec, continue, query, ◌>>=◌, ◌>>◌}

-- The action relates the table that it finds to the table that it leaves, raising or not.
abbrev pub Takes :
    {A : Type 0} → (List Reservation → List Reservation → Type 0) → Exec A → Session → Type 0
Takes R m s = R s.reservations (m s).1.reservations

module _ {A B : Type 0} (m : Exec A) (f : A → Exec B) (s s' : Session) where
  pub bind-ok : (a : A) → m s ≡ (ok a, s') → (m >>= f) s ≡ f a s'
  bind-ok a e = ap (λ (x : Result A × Session). continue x.0 f x.1) e

  pub bind-err : (x : Error) → m s ≡ (err x, s') → (m >>= f) s ≡ (err x, s')
  bind-err x e = ap (λ (y : Result A × Session). continue y.0 f y.1) e

module _ {A B : Type 0} (R : List Reservation → List Reservation → Type 0)
    (R-trans : (a b c : List Reservation) → R a b → R b c → R a c) where
  pub bind-Takes :
      (m : Exec A) (f : A → Exec B) (s : Session)
      → Takes R m s
      → ((a : A) (s' : Session) → m s ≡ (ok a, s') → Takes R (f a) s')
      → Takes R (m >>= f) s
  bind-Takes m f s p q = go (m s).0 (m s).1 refl
    where
      reached : {r : Result A} {s' : Session} → m s ≡ (r, s') → R s.reservations s'.reservations
      reached e = subst (λ (x : Result A × Session). R s.reservations x.1.reservations) e p

      go : (r : Result A) (s' : Session) → m s ≡ (r, s') → Takes R (m >>= f) s
      go (ok a) s' e =
          subst (λ (x : Result B × Session). R s.reservations x.1.reservations)
            (sym (bind-ok m f s s' a e))
            (R-trans s.reservations s'.reservations (f a s').1.reservations (reached e) (q a s' e))
      go (err x) s' e =
          subst (λ (y : Result B × Session). R s.reservations y.1.reservations)
            (sym (bind-err m f s s' x e)) (reached e)

module _ {A : Type 0} (R : List Reservation → List Reservation → Type 0) where
  pub if-Takes :
      (b : Bool) (m n : Exec A) (s : Session)
      → Takes R m s
      → Takes R n s
      → Takes R (if b then m else n) s
  if-Takes true m n s p q = p
  if-Takes false m n s p q = q

-- A check that only reads, before the rest of a block.
pub query-Takes :
    {A : Type 0} (R : List Reservation → List Reservation → Type 0) (check : Session → Check)
    (rest : Exec A) (s : Session)
    → ((rows : List Reservation) → R rows rows)
    → Takes R rest s
    → Takes R (do query check; rest) s
query-Takes R check rest s R-refl later = go (check s) refl
  where
    go : (c : Check) → check s ≡ c → Takes R (do query check; rest) s
    go (ok tt) e = rw e later
    go (err x) e = rw e (R-refl s.reservations)
