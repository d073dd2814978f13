-- ===== src/Users/Admins.antt =====
-- The active administrators of a lab, and what changes to the table of users leave of them.
use core_lab.Prelude.{
  ℕ, ◌≡◌, Bool, true, false, not, none, some, List, [], ◌∷◌, ◌++◌, ◌==◌, arith, length, leb, map,
  select, some_of, Bool-cases, inl, inr,
}
use core_lab.Users.Tables.{User, Db, Outcome, find_user, update_user_row, and_then}
use core_lab.Users.Manage.{is_active_admin, is_other_admin, ensure_at_least_one_active_admin}

pub find_user-id : (n : ℕ) (users : List User) (u : User) → find_user n users ≡ some u → u.id ≡ n
unfolding find_user
find_user-id n [] u h = cc
find_user-id n (v ∷ users) u h = ground (arith, h, find_user-id n users u)

module _ (lab : ℕ) where
  abbrev pub has_admin : List User → Bool
  has_admin = some_of (is_active_admin lab)

  -- The lab has an active administrator in what an operation leaves.
  abbrev pub Keeps : {A : Type 0} → Outcome A × Db → Type 0
  Keeps r = has_admin r.1.users ≡ true

  pub has_admin-append :
      (users more : List User) → has_admin users ≡ true → has_admin (users ++ more) ≡ true
  has_admin-append [] more h = cc
  has_admin-append (u ∷ users) more h = ground (arith, h, has_admin-append users more)

  -- A change that leaves administrators what they are.
  pub has_admin-update :
      (n : ℕ) (f : User → User)
      → ((u : User) → is_active_admin lab u ≡ true → is_active_admin lab (f u) ≡ true)
      → (users : List User) → has_admin users ≡ true
      → has_admin (update_user_row n f users) ≡ true
  unfolding update_user_row
  has_admin-update n f keep [] h = h
  has_admin-update n f keep (u ∷ users) h =
      ground (arith, h, keep u, has_admin-update n f keep users)

  -- A change of a row that is no administrator's.
  pub has_admin-other_row :
      (n : ℕ) (f : User → User) (u : User) (users : List User)
      → find_user n users ≡ some u
      → is_active_admin lab u ≡ false
      → has_admin users ≡ true
      → has_admin (update_user_row n f users) ≡ true
  unfolding update_user_row find_user
  has_admin-other_row n f u [] found off h = h
  has_admin-other_row n f u (v ∷ users) found off h = elim (Bool-cases (v.id == n)) [
    | inl e ↦ ground (arith, e, h, found, off)
    | inr e ↦ ground (arith, e, h, found, has_admin-other_row n f u users)
  ]

  -- A change of one row, where another is an administrator's.
  pub has_admin-other :
      (n : ℕ) (f : User → User) (users : List User)
      → some_of (is_other_admin lab n) users ≡ true
      → has_admin (update_user_row n f users) ≡ true
  unfolding update_user_row
  has_admin-other n f [] h = h
  has_admin-other n f (u ∷ users) h = ground (arith, h, other users, has_admin-other n f users)
    where
      other :
          (users : List User) → some_of (is_other_admin lab n) users ≡ true → has_admin users ≡ true
      other [] h = h
      other (u ∷ users) h = ground (arith, h, other users)

  pub ensure-other :
      (n : ℕ) (db : Db)
      → ensure_at_least_one_active_admin n lab db ≡ none
      → some_of (is_other_admin lab n) db.users ≡ true
  unfolding ensure_at_least_one_active_admin
  ensure-other n db h = some_left db.users (ground (arith, h))
    where
      remaining : List User → List ℕ
      remaining users =
          select (λ m. not (m == n)) (map (λ u. u.id) (select (is_active_admin lab) users))

      some_left :
          (users : List User)
          → leb 1 (length (remaining users)) ≡ true
          → some_of (is_other_admin lab n) users ≡ true
      some_left [] h = h
      some_left (u ∷ users) h = ground (arith, h, some_left users)

  pub other-ensure :
      (n : ℕ) (db : Db)
      → some_of (is_other_admin lab n) db.users ≡ true
      → ensure_at_least_one_active_admin n lab db ≡ none
  unfolding ensure_at_least_one_active_admin
  other-ensure n db h = ground (arith, some_kept db.users h)
    where
      some_kept :
          (users : List User)
          → some_of (is_other_admin lab n) users ≡ true
          → leb 1 (
              length
                (select (λ m. not (m == n)) (map (λ u. u.id) (select (is_active_admin lab) users))))
            ≡ true
      some_kept [] h = h
      some_kept (u ∷ users) h = ground (arith, h, some_kept users)

  pub and_then-Keeps :
      {A B : Type 0} (r : Outcome A × Db) (next : A → Db → Outcome B × Db)
      → Keeps r
      → ((a : A) (db : Db) → has_admin db.users ≡ true → Keeps (next a db))
      → Keeps (and_then r next)
  and_then-Keeps (Outcome.failed e, db) next h k = h
  and_then-Keeps (Outcome.done a, db) next h k = k a db h
