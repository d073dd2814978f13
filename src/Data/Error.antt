-- ===== src/Data/Error.antt =====
-- The exceptions of the reservation services as values, and computations that may raise them
-- (the classes of backend/corelab_backend/services/reservation_service.py and
-- script_lifecycle_service.py; `integrity_error` is a CHECK constraint refused by the database).
use core_lab.Prelude.{ℕ, Bool, true, false, Option, List, [], ◌∷◌, ◌+◌, ◌-◌, ◌≡◌, refl, All}
use core_lab.Data.Status.{Status, ScriptStatus}

pub data Error : Type 0 where
  overlap : (conflicting_reservation_ids : List ℕ) → Error
  mix_exclusive_shared : (conflicting_reservation_ids : List ℕ) → Error
  memory_exceeded : (used_mb would_use_mb total_mb : ℕ) → List ℕ → Error
  compute_exceeded : (used_pct would_use_pct : ℕ) → List ℕ → Error
  too_long : (max_hours requested : ℕ) → Error
  invalid_time : Error
  link_not_verified : Error
  no_active_link : Error
  script_too_large : Error
  reservation_not_found : Error
  cancel_not_permitted : Error
  group_cancel_running_script : List ℕ → Error
  illegal_transition : (current attempted : Status) → Error
  illegal_script_transition : (current : Option ScriptStatus) (attempted : ScriptStatus) → Error
  not_dispatchable : (current : Status) → Error
  -- the base class `ReservationError`, raised as it stands
  reservation_error : Error
  agent_unreachable_during_cancel : Error
  lifecycle_event_timeout : Error
  integrity_error : Error
  assertion_error : Error

pub data Result {ℓ} (A : Type ℓ) : Type ℓ where
  ok : A → Result A
  err : Error → Result A

-- What a check that only reads the session returns.
abbrev pub Check : Type 0
Check = Result (Unit {0})

infixl 10 ◌and_then◌
abbrev pub ◌and_then◌ : Check → Check → Check
ok _ and_then k = k
err e and_then k = err e

-- `if not test: raise e`
abbrev pub require : Bool → Error → Check
require true e = ok tt
require false e = err e

-- `exceeds_by_mb` of a memory error, which is positive where the error is raised.
abbrev pub exceeds_by : ℕ → ℕ → ℕ → ℕ
exceeds_by used would total = used + would - total

-- A loop whose body may raise.
abbrev pub for_each {ℓ} : {A : Type ℓ} → (A → Check) → List A → Check
for_each f [] = ok tt
for_each f (x ∷ xs) = f x and_then for_each f xs

-- A chain of checks passes only if each does.
pub and_then-ok : (c k : Check) (u : Unit {0}) → (c and_then k) ≡ ok u → (c ≡ ok tt) × (k ≡ ok tt)
and_then-ok (ok v) k u h = (refl, h)
and_then-ok (err e) k u h = cc

pub for_each-All {ℓ} :
    {A : Type ℓ} (f : A → Check) (xs : List A) (u : Unit {0})
    → for_each f xs ≡ ok u
    → All (λ x. f x ≡ ok tt) xs
for_each-All f [] u h = tt
for_each-All f (x ∷ xs) u h =
    let parts = and_then-ok (f x) (for_each f xs) u h in (parts.0, for_each-All f xs tt parts.1)

pub for_each-ok {ℓ} :
    {A : Type ℓ} (f : A → Check) (xs : List A) → All (λ x. f x ≡ ok tt) xs → for_each f xs ≡ ok tt
for_each-ok f [] h = refl
for_each-ok f (x ∷ xs) h = rw h.0 (for_each-ok f xs h.1)
