-- ===== src/Users/Operations/Profile.antt =====
-- What the changes of one user's row leave of a lab's administrators.
use core_lab.Prelude.{
  ℕ, ◌≡◌, refl, subst, ◌∙◌, sym, true, Option, none, some, [], ◌∷◌, ◌==◌, arith, select, Bool-cases,
  Option-cases, inl, inr,
}
use core_lab.Data.Row.{Text}
use core_lab.RateLimit.Window.{Store}
use core_lab.RateLimit.Lock.{login_lock_manager, subject_locked}
use core_lab.Users.Tables.{
  User, Role, Outside, Db, Outcome, one_or_none, find_user, update_user_row, is_admin_role,
}
use core_lab.Users.Login.{
  hash_password, LoginRequest, authenticate, login_as, is_called, lock_subject,
}
use core_lab.Users.Tokens.{issue_setup_token}
use core_lab.Users.Manage.{
  UserCreate, UserUpdate, create_user, update_user, change_role, reactivate_user, set_password,
  change_password, issue_password_reset, resend_invite, is_active_admin, set_active, set_role,
  get_user, updated, new_user, ensure_at_least_one_active_admin,
}
use core_lab.Users.Admins.{
  find_user-id, has_admin, Keeps, has_admin-append, has_admin-update, has_admin-other_row,
  has_admin-other, ensure-other,
}

module _ (lab : ℕ) (db : Db) (h : has_admin lab db.users ≡ true) where
  pub create_user-Keeps :
      (outside : Outside) (payload : UserCreate) (lab_id actor : ℕ)
      → Keeps lab (create_user outside payload lab_id actor db)
  unfolding create_user
  create_user-Keeps outside payload lab_id actor = ground (
    arith,
    h,
    has_admin-append lab db.users (new_user db.next_user_id lab_id payload none (some actor) ∷ [])
        h,
  )

  pub update_user-Keeps :
      (outside : Outside) (n : ℕ) (payload : UserUpdate) (actor : ℕ) (role : Role) (lab_id : ℕ)
      → Keeps lab (update_user outside n payload actor role lab_id db)
  unfolding update_user get_user
  update_user-Keeps outside n payload actor role lab_id =
      elim (Option-cases (find_user n db.users)) [
        | inl e ↦ ground (arith, e, h)
        | inr (u, e) ↦
            ground (arith, e, h, has_admin-update lab u.id (updated payload) (λ v k. k) db.users h)
      ]

  -- The row of the user that a guarded change is for.
  pub guarded_row :
      (n lab_id : ℕ) (f : User → User) (u : User)
      → find_user n db.users ≡ some u
      → (u.lab_id == lab_id) ≡ true
      → (is_active_admin lab_id u ≡ true → ensure_at_least_one_active_admin u.id lab_id db ≡ none)
      → has_admin lab (update_user_row u.id f db.users) ≡ true
  guarded_row n lab_id f u found here guard = elim (Bool-cases (is_active_admin lab u)) [
    | inl admin ↦ has_admin-other lab u.id f db.users (
        ensure-other lab u.id db (
          subst (λ m. ensure_at_least_one_active_admin u.id m db ≡ none) (same_lab admin)
            (guard (ground (arith, admin, here)))))
    | inr other ↦
        has_admin-other_row lab u.id f u db.users
          (subst (λ m. find_user m db.users ≡ some u) (sym (find_user-id n db.users u found)) found)
          other h
  ]
    where
      same_lab : is_active_admin lab u ≡ true → lab_id ≡ lab
      same_lab admin = ground (arith, admin, here)

  pub change_role-Keeps :
      (n : ℕ) (role : Role) (actor lab_id : ℕ) → Keeps lab (change_role n role actor lab_id db)
  unfolding change_role get_user
  change_role-Keeps n role actor lab_id = elim (Option-cases (find_user n db.users)) [
    | inl e ↦ ground (arith, e, h)
    | inr (u, e) ↦ ground (arith, e, h, guarded_row n lab_id (set_role role) u e, promoted u role)
  ]
    where
      promoted :
          (u : User) (role : Role)
          → is_admin_role role ≡ true
          → has_admin lab (update_user_row u.id (set_role role) db.users) ≡ true
      promoted u role admin =
          has_admin-update lab u.id (set_role role) (λ v k. ground (arith, k, admin)) db.users h

  pub update_unchanged :
      (n : ℕ) (f : User → User)
      → ((u : User) → is_active_admin lab (f u) ≡ is_active_admin lab u)
      → has_admin lab (update_user_row n f db.users) ≡ true
  update_unchanged n f same = has_admin-update lab n f (λ u k. same u ∙ k) db.users h

  pub reactivate_user-Keeps : (n lab_id : ℕ) → Keeps lab (reactivate_user n lab_id db)
  unfolding reactivate_user get_user
  reactivate_user-Keeps n lab_id = elim (Option-cases (find_user n db.users)) [
    | inl e ↦ ground (arith, e, h)
    | inr (u, e) ↦ ground (
      arith,
      e,
      h,
      has_admin-update lab u.id (set_active true) (λ v k. ground (arith, k)) db.users h,
    )
  ]

  pub change_password-Keeps :
      (outside : Outside) (actor lab_id : ℕ) (old new : Text)
      → Keeps lab (change_password outside actor lab_id old new db)
  unfolding change_password get_user
  change_password-Keeps outside actor lab_id old new =
      elim (Option-cases (find_user actor db.users)) [
        | inl e ↦ ground (arith, e, h)
        | inr (u, e) ↦ ground (
          arith,
          e,
          h,
          update_unchanged u.id (set_password (hash_password outside db.draws new)) (λ v. refl),
        )
      ]

  pub issue_password_reset-Keeps :
      (outside : Outside) (n actor lab_id : ℕ)
      → Keeps lab (issue_password_reset outside n actor lab_id db)
  unfolding issue_password_reset get_user issue_setup_token
  issue_password_reset-Keeps outside n actor lab_id = ground (arith, h)

  pub resend_invite-Keeps :
      (outside : Outside) (n actor lab_id : ℕ) → Keeps lab (resend_invite outside n actor lab_id db)
  unfolding resend_invite get_user issue_setup_token
  resend_invite-Keeps outside n actor lab_id = ground (arith, h)

  pub authenticate-Keeps :
      (outside : Outside) (payload : LoginRequest) (ip : Option Text)
      → Keeps lab (authenticate outside payload ip db)
  unfolding authenticate
  authenticate-Keeps outside payload ip =
      ground
        (arith, h, by_user (one_or_none (select (is_called outside payload.username) db.users)))
    where
      store : Store
      store =
          (subject_locked login_lock_manager (lock_subject payload ip) db.accounts.clock db.locks).1

      by_user :
          (r : Outcome (Option User))
          → Keeps lab
              (login_as outside (lock_subject payload ip) payload (record db { locks = store }) r)
      by_user (Outcome.failed e) = h
      by_user (Outcome.done none) = h
      by_user (Outcome.done (some u)) = ground (
        arith,
        h,
        update_unchanged u.id (λ v. record v { last_login_at = some db.accounts.clock })
            (λ v. refl),
      )
