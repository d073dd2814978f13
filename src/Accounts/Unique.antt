-- ===== src/Accounts/Unique.antt =====
-- At most one active link for a user and an account.
use core_lab.Prelude.{
  ℕ, ◌≤◌, ◌≡◌, refl, subst, Bool, true, false, ◌||◌, not, Option, none, some, List, [], ◌∷◌, ◌++◌,
  arith, length, length-append, select, select-append, every, leb, ==_refl, All, if◌then◌else◌,
  Bool-cases, inl, inr,
}
use core_lab.Data.Row.{Instant}
use core_lab.Accounts.Tables.{
  RevokeReason, Link, AuditEvent, Db, Attempt, active_of, is_unique, update_link,
}
use core_lab.Accounts.Links.{one_or_none, existing_active_link, add_link, deactivate}

abbrev pub count : (u p : ℕ) → List Link → ℕ
count u p links = length (select (active_of u p) links)

abbrev pub Unique : List Link → Type 0
Unique links = (u p : ℕ) → count u p links ≤ 1

every-all {ℓ} :
    {A : Type ℓ} → (p : A → Bool) → ((x : A) → p x ≡ true) → (xs : List A) → every p xs ≡ true
every-all p h [] = refl
every-all p h (x ∷ xs) = ground (arith, h x, every-all p h xs)

pub Unique-is_unique : (links : List Link) → Unique links → is_unique links ≡ true
Unique-is_unique links h =
    every-all (λ l. not l.is_active || leb (count l.user_id l.physical_account_id links) 1)
      (λ l. ground (arith, h l.user_id l.physical_account_id)) links

-- An added link of a pair that has no active one.
Unique-append :
    (links : List Link) (l : Link)
    → count l.user_id l.physical_account_id links ≡ 0
    → Unique links
    → Unique (links ++ l ∷ [])
Unique-append links l none_yet h u p = elim (Bool-cases (active_of u p l)) [
  | inl same ↦ ground (
    arith,
    same,
    select-append (active_of u p) links (l ∷ []),
    length-append (select (active_of u p) links) (l ∷ []),
    subst (λ x. count x p links ≡ 0) (user same)
        (subst (λ x. count l.user_id x links ≡ 0) (account same) none_yet),
  )
  | inr other ↦ ground (
    arith,
    other,
    select-append (active_of u p) links (l ∷ []),
    length-append (select (active_of u p) links) [],
    h u p,
  )
]
  where
    user : active_of u p l ≡ true → l.user_id ≡ u
    user same = ground arith

    account : active_of u p l ≡ true → l.physical_account_id ≡ p
    account same = ground arith

pub count-none :
    (u p : ℕ) (db : Db) → existing_active_link u p db ≡ Attempt.done none → count u p db.links ≡ 0
unfolding existing_active_link
count-none u p db h = go (select (active_of u p) db.links) h
  where
    go : (ls : List Link) → one_or_none ls ≡ Attempt.done none → length ls ≡ 0
    go [] e = refl
    go (l ∷ []) e = cc
    go (l ∷ m ∷ ls) e = cc

pub count-some :
    (u p : ℕ) (db : Db) (l : Link)
    → existing_active_link u p db ≡ Attempt.done (some l)
    → select (active_of u p) db.links ≡ l ∷ []
unfolding existing_active_link
count-some u p db l h = go (select (active_of u p) db.links) h
  where
    go : (ls : List Link) → one_or_none ls ≡ Attempt.done (some l) → ls ≡ l ∷ []
    go [] e = cc
    go (x ∷ []) e = cc
    go (x ∷ y ∷ ls) e = cc

-- Of a table without doubles at most one row is found.
pub existing-done :
    (u p : ℕ) (db : Db)
    → Unique db.links
    → (o : Option Link) × (existing_active_link u p db ≡ Attempt.done o)
unfolding existing_active_link
existing-done u p db h = go (select (active_of u p) db.links) (h u p)
  where
    go : (ls : List Link) → length ls ≤ 1 → (o : Option Link) × (one_or_none ls ≡ Attempt.done o)
    go [] k = (none, refl)
    go (l ∷ []) k = (some l, refl)
    go (l ∷ m ∷ ls) k = ground (arith, k)

module _ (actor : ℕ) (reason : RevokeReason) (now : Instant) (n : ℕ) where
  pub count-deactivate :
      (u p : ℕ) (links : List Link)
      → count u p (update_link n (deactivate actor reason now) links) ≤ count u p links
  unfolding deactivate
  count-deactivate u p [] = ground arith
  count-deactivate u p (l ∷ links) = ground (arith, count-deactivate u p links)

  pub Unique-deactivate :
      (links : List Link)
      → Unique links
      → Unique (update_link n (deactivate actor reason now) links)
  Unique-deactivate links h u p = ground (arith, h u p, count-deactivate u p links)

  -- Where every active link of a pair has the primary key, none is left.
  pub select-deactivate :
      (u p : ℕ) (links : List Link)
      → All (λ l. l.id ≡ n) (select (active_of u p) links)
      → select (active_of u p) (update_link n (deactivate actor reason now) links) ≡ []
  unfolding deactivate
  select-deactivate u p [] h = refl
  select-deactivate u p (l ∷ links) h = go (active_of u p l) refl h (select-deactivate u p links)
    where
      go :
          (b : Bool)
          → active_of u p l ≡ b
          → All
              (λ l. l.id ≡ n)
              (if b then l ∷ select (active_of u p) links else select (active_of u p) links)
          → (All (λ l. l.id ≡ n) (select (active_of u p) links)
              → select (active_of u p) (update_link n (deactivate actor reason now) links) ≡ [])
          → select (active_of u p) (update_link n (deactivate actor reason now) (l ∷ links)) ≡ []
      go true e k rest = ground (arith, k.0, ==_refl n, rest k.1)
      go false e k rest = ground (arith, e, rest k)

-- Adding a link of a pair without an active one: the constraint holds, and what was to be returned is.
module _ (l : Link) (event : AuditEvent) (db : Db)
    (none_yet : count l.user_id l.physical_account_id db.links ≡ 0) (unique : Unique db.links) where
  pub links_after-Unique : Unique (db.links ++ l ∷ [])
  links_after-Unique = Unique-append db.links l none_yet unique

  pub add_link-done : (add_link l event db).0 ≡ Attempt.done l
  unfolding add_link
  add_link-done = ground (arith, Unique-is_unique (db.links ++ l ∷ []) links_after-Unique)

  pub add_link-links : (add_link l event db).1.links ≡ db.links ++ l ∷ []
  unfolding add_link
  add_link-links = ground (arith, Unique-is_unique (db.links ++ l ∷ []) links_after-Unique)
