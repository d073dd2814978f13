-- ===== src/Prelude/Members.antt =====
-- Properties of all members of a list.
use mathlib.Core.Path.{◌≡◌, refl}
use mathlib.Core.Bool.{Bool, true, false, ◌||◌}
use mathlib.Core.List.{List, [], ◌∷◌, ◌++◌}
use native.Mathlib.Omega.{arith}
use core_lab.Prelude.Tests.{if◌then◌else◌}
use core_lab.Prelude.Lists.{All, select, some_of}

pub All-append {ℓ κ} :
    {A : Type ℓ} → (P : A → Type κ) → (xs ys : List A) → All P xs → All P ys → All P (xs ++ ys)
All-append P [] ys h k = k
All-append P (x ∷ xs) ys h k = (h.0, All-append P xs ys h.1 k)

pub All-select {ℓ κ} :
    {A : Type ℓ}
    → (P : A → Type κ) → (p : A → Bool) → (xs : List A) → All P xs
    → All P (select p xs)
All-select P p [] h = tt
All-select P p (x ∷ xs) h = go (p x) (All-select P p xs h.1)
  where
    go : (b : Bool) → All P (select p xs) → All P (if b then x ∷ select p xs else select p xs)
    go true r = (h.0, r)
    go false r = r

-- The members of a list pass the test of being there.
pub All-member {ℓ} :
    {A : Type ℓ}
    → (eq : A → A → Bool) → ((x : A) → eq x x ≡ true)
    → (xs ys : List A) → ((z : A) → some_of (eq z) xs ≡ true → some_of (eq z) ys ≡ true)
    → All (λ z. some_of (eq z) ys ≡ true) xs
All-member eq same [] ys h = tt
All-member eq same (x ∷ xs) ys h = (
  h x (ground (arith, same x)),
  All-member eq same xs ys (λ z k. h z (ground (arith, k, or_true (eq z x)))),
)
  where
    or_true : (b : Bool) → (b || true) ≡ true
    or_true true = refl
    or_true false = refl
