-- ===== src/Prelude/Sort.antt =====
-- Stable sorting.
use Prim.Native.Nat.{ℕ, zero, suc, ◌≤◌}
use mathlib.Core.Path.{◌≡◌, refl}
use mathlib.Core.Bool.{Bool, true, false}
use mathlib.Core.List.{List, [], ◌∷◌}
use native.Mathlib.Omega.{arith}
use core_lab.Prelude.Tests.{if◌then◌else◌, leb}
use core_lab.Prelude.Lists.{All}

module _ {ℓ} {A : Type ℓ} where
  abbrev pub insert_by : (A → A → Bool) → A → List A → List A
  insert_by le x [] = x ∷ []
  insert_by le x (y ∷ ys) = let rest = insert_by le x ys in if le x y then x ∷ y ∷ ys else y ∷ rest

  -- `sorted(xs, key=...)`, where `le` compares the keys.
  abbrev pub sort_by : (A → A → Bool) → List A → List A
  sort_by le [] = []
  sort_by le (x ∷ xs) = insert_by le x (sort_by le xs)

  -- `xs[:n]`
  abbrev pub take : ℕ → List A → List A
  take zero xs = []
  take (suc n) [] = []
  take (suc n) (x ∷ xs) = x ∷ take n xs

  pub All-insert_by {κ} :
      (P : A → Type κ) (le : A → A → Bool) (x : A) (ys : List A)
      → P x
      → All P ys
      → All P (insert_by le x ys)
  All-insert_by P le x [] h k = (h, tt)
  All-insert_by P le x (y ∷ ys) h k = go (le x y) (All-insert_by P le x ys h k.1)
    where
      go :
          (b : Bool)
          → All P (insert_by le x ys)
          → All P (if b then x ∷ y ∷ ys else y ∷ insert_by le x ys)
      go true r = (h, k)
      go false r = (k.0, r)

  pub All-sort_by {κ} :
      (P : A → Type κ) (le : A → A → Bool) (xs : List A) → All P xs → All P (sort_by le xs)
  All-sort_by P le [] h = tt
  All-sort_by P le (x ∷ xs) h = All-insert_by P le x (sort_by le xs) h.0 (All-sort_by P le xs h.1)

  pub All-take {κ} : (P : A → Type κ) (n : ℕ) (xs : List A) → All P xs → All P (take n xs)
  All-take P zero xs h = tt
  All-take P (suc n) [] h = tt
  All-take P (suc n) (x ∷ xs) h = (h.0, All-take P n xs h.1)

  pub All-map {κ ℓ₂} :
      (P : A → Type κ) (Q : A → Type ℓ₂)
      → ((x : A) → P x → Q x)
      → (xs : List A) → All P xs
      → All Q xs
  All-map P Q f [] h = tt
  All-map P Q f (x ∷ xs) h = (f x h.0, All-map P Q f xs h.1)

  module _ (key : A → ℕ) where
    -- The keys never descend.
    abbrev pub Ascending : List A → Type 0
    Ascending [] = Unit
    Ascending (x ∷ xs) = All (λ y. key x ≤ key y) xs × Ascending xs

    abbrev pub by_key : A → A → Bool
    by_key x y = leb (key x) (key y)

    insert_by-Ascending : (x : A) (ys : List A) → Ascending ys → Ascending (insert_by by_key x ys)
    insert_by-Ascending x [] h = (tt, tt)
    insert_by-Ascending x (y ∷ ys) h = go (by_key x y) refl (insert_by-Ascending x ys h.1)
      where
        go :
            (b : Bool)
            → by_key x y ≡ b
            → Ascending (insert_by by_key x ys)
            → Ascending (if b then x ∷ y ∷ ys else y ∷ insert_by by_key x ys)
        go true e r = (
          (
            ground arith,
            All-map (λ z. key y ≤ key z) (λ z. key x ≤ key z) (λ z k. ground arith) ys h.0,
          ),
          h,
        )
        go false e r = (All-insert_by (λ z. key y ≤ key z) by_key x ys (ground arith) h.0, r)

    pub sort_by-Ascending : (xs : List A) → Ascending (sort_by by_key xs)
    sort_by-Ascending [] = tt
    sort_by-Ascending (x ∷ xs) = insert_by-Ascending x (sort_by by_key xs) (sort_by-Ascending xs)

    pub take-Ascending : (n : ℕ) (xs : List A) → Ascending xs → Ascending (take n xs)
    take-Ascending zero xs h = tt
    take-Ascending (suc n) [] h = tt
    take-Ascending (suc n) (x ∷ xs) h =
        (All-take (λ y. key x ≤ key y) n xs h.0, take-Ascending n xs h.1)
