-- ===== src/Users/Manage.antt =====
-- What administrators and users do with accounts.
pub mod Disabled
use core_lab.Prelude.{
  ℕ, ◌+◌, Bool, true, false, ◌&&◌, ◌||◌, not, Option, none, some, List, [], ◌∷◌, ◌++◌, ◌==◌, select,
  map, leb, length, or_else, is_some, if◌then◌else◌,
}
use core_lab.Data.Row.{Text}
use core_lab.Accounts.Tables.{RevokeCall, Reply}
use core_lab.Users.Tables.{
  User, Role, Purpose, Outside, AuditEvent, Db, ServiceError, Outcome, and_then, unless_refused,
  find_user, update_user_row, flush_user, is_admin_role, audit,
}
use core_lab.Users.Login.{hash_password, verify_password}
use core_lab.Users.Tokens.{Issued, issue_setup_token}
use core_lab.Users.Access.{cascade_revoke_access}

abbrev pub in_lab : (lab_id : ℕ) → Option User → Outcome User
in_lab lab_id none = Outcome.failed ServiceError.user_not_found
in_lab lab_id (some u) =
    if u.lab_id == lab_id then Outcome.done u else Outcome.failed ServiceError.user_not_found

-- `get_user`
unfoldable pub get_user : (user_id lab_id : ℕ) → Db → Outcome User
get_user user_id lab_id db = in_lab lab_id (find_user user_id db.users)

abbrev pub with_user : {A : Type 0} → Outcome User → Db → (User → Outcome A × Db) → Outcome A × Db
with_user (Outcome.failed e) db next = (Outcome.failed e, db)
with_user (Outcome.done u) db next = next u

pub record UserCreate : Type 0 where
  pub username : Text
  pub email : Text
  pub display_name : Text
  pub role : Role

abbrev pub new_user :
    (user_id lab_id : ℕ)
    → UserCreate
    → (password_hash : Option Text) → (created_by_user_id : Option ℕ) → User
new_user user_id lab_id payload password_hash created_by_user_id = record {
  id = user_id;
  lab_id = lab_id;
  username = payload.username;
  email = payload.email;
  password_hash = password_hash;
  display_name = payload.display_name;
  role = payload.role;
  is_active = true;
  last_login_at = none;
  created_by_user_id = created_by_user_id;
}

-- `session.add(user)`
abbrev pub add_user_row : User → Db → Db
add_user_row u db = record db { users = db.users ++ u ∷ []; next_user_id = db.next_user_id + 1 }

-- `create_user`
unfoldable pub create_user :
    Outside → UserCreate → (lab_id actor_user_id : ℕ) → Db → Outcome User × Db
create_user outside payload lab_id actor_user_id db =
    let u = new_user db.next_user_id lab_id payload none (some actor_user_id) in
    let db' = add_user_row u db in
    flush_user outside u ServiceError.duplicate_user db db'
      (Outcome.done u, audit (AuditEvent.user_created actor_user_id u.id u.role) db')

pub record UserUpdate : Type 0 where
  pub display_name : Option Text
  pub email : Option Text

abbrev pub updated : UserUpdate → User → User
updated payload u = record u {
  display_name = or_else u.display_name payload.display_name;
  email = or_else u.email payload.email;
}

abbrev pub set_users : List User → Db → Db
set_users users db = record db { users = users }

-- `update_user`
unfoldable pub update_user :
    Outside
    → (user_id : ℕ) → UserUpdate
    → (actor_user_id : ℕ) (actor_role : Role) (lab_id : ℕ) → Db
    → Outcome User × Db
update_user outside user_id payload actor_user_id actor_role lab_id db =
    with_user (get_user user_id lab_id db) db (λ u.
      if not (actor_user_id == u.id) && not (is_admin_role actor_role)
      then (Outcome.failed ServiceError.forbidden, db)
      else (let u' = updated payload u in
          let db' = set_users (update_user_row u.id (updated payload) db.users) db in
          flush_user outside u' ServiceError.duplicate_user db db' (
            Outcome.done u',
            audit
                (AuditEvent.user_updated actor_user_id u.id u.display_name u.email u'.display_name
                  u'.email)
                db',
          )))

abbrev pub is_active_admin : (lab_id : ℕ) → User → Bool
is_active_admin lab_id u = u.lab_id == lab_id && (is_admin_role u.role && u.is_active)

abbrev pub is_other_admin : (lab_id exclude_user_id : ℕ) → User → Bool
is_other_admin lab_id exclude_user_id u = is_active_admin lab_id u && not (u.id == exclude_user_id)

-- `_ensure_at_least_one_active_admin`
unfoldable pub ensure_at_least_one_active_admin :
    (exclude_user_id lab_id : ℕ) → Db → Option ServiceError
ensure_at_least_one_active_admin exclude_user_id lab_id db =
    let remaining =
      select (λ n. not (n == exclude_user_id))
        (map (λ u. u.id) (select (is_active_admin lab_id) db.users)) in
    if leb 1 (length remaining) then none else some ServiceError.last_admin

abbrev pub set_role : Role → User → User
set_role role u = record u { role = role }

-- `change_role`
unfoldable pub change_role :
    (user_id : ℕ) → Role → (actor_user_id lab_id : ℕ) → Db → Outcome User × Db
change_role user_id role actor_user_id lab_id db =
    if actor_user_id == user_id
    then (Outcome.failed ServiceError.self_role_change, db)
    else with_user (get_user user_id lab_id db) db (λ u.
      unless_refused
        (if is_admin_role u.role && not (is_admin_role role)
          then ensure_at_least_one_active_admin u.id lab_id db
          else none)
        db
        (
          Outcome.done (set_role role u),
          audit (AuditEvent.role_changed actor_user_id u.id u.role role)
              (set_users (update_user_row u.id (set_role role) db.users) db),
        ))

abbrev pub set_active : Bool → User → User
set_active b u = record u { is_active = b }

-- What is left of `disable_user` after its checks.
abbrev pub disable_found :
    (RevokeCall → Reply) → (user_id actor_user_id : ℕ) → Db → User → Outcome User × Db
disable_found agent user_id actor_user_id db u =
    and_then
      (cascade_revoke_access agent user_id actor_user_id (
        audit (AuditEvent.user_disabled u.id)
          (set_users (update_user_row u.id (set_active false) db.users) db)))
      (λ ok db. (Outcome.done (set_active false u), db))

-- `disable_user`
unfoldable pub disable_user :
    (RevokeCall → Reply) → (user_id actor_user_id lab_id : ℕ) → Db → Outcome User × Db
disable_user agent user_id actor_user_id lab_id db =
    if actor_user_id == user_id
    then (Outcome.failed ServiceError.self_disable, db)
    else with_user (get_user user_id lab_id db) db (λ u.
      unless_refused
        (if u.is_active && is_admin_role u.role
          then ensure_at_least_one_active_admin u.id lab_id db
          else none)
        db (disable_found agent user_id actor_user_id db u))

-- `reactivate_user`
unfoldable pub reactivate_user : (user_id lab_id : ℕ) → Db → Outcome User × Db
reactivate_user user_id lab_id db = with_user (get_user user_id lab_id db) db (λ u.
    if u.is_active then (Outcome.done u, db) else (
      Outcome.done (set_active true u),
      audit (AuditEvent.user_reactivated u.id)
          (set_users (update_user_row u.id (set_active true) db.users) db),
    ))

abbrev pub set_password : Text → User → User
set_password hash u = record u { password_hash = some hash }

abbrev knows_password : Outside → Text → Option Text → Bool
knows_password outside old_password none = false
knows_password outside old_password (some hash) = verify_password outside old_password hash

-- `change_password`
unfoldable pub change_password :
    Outside → (actor_user_id lab_id : ℕ) (old_password new_password : Text) → Db → Outcome User × Db
change_password outside actor_user_id lab_id old_password new_password db =
    with_user (get_user actor_user_id lab_id db) db (λ u.
      if knows_password outside old_password u.password_hash
      then (let hash = hash_password outside db.draws new_password in
          (
            Outcome.done (set_password hash u),
            audit (AuditEvent.password_changed actor_user_id true) (record db {
              users = update_user_row u.id (set_password hash) db.users;
              draws = db.draws + 1;
            }),
          ))
      else (
        Outcome.failed ServiceError.wrong_password,
        audit (AuditEvent.password_changed actor_user_id false) db,
      ))

abbrev pub issued_for : Issued × Db → Outcome Issued × Db
issued_for (issued, db) = (Outcome.done issued, db)

-- `issue_password_reset`
unfoldable pub issue_password_reset :
    Outside → (user_id actor_user_id lab_id : ℕ) → Db → Outcome Issued × Db
issue_password_reset outside user_id actor_user_id lab_id db =
    with_user (get_user user_id lab_id db) db (λ u.
      if is_some u.password_hash
      then issued_for
          (issue_setup_token outside u.id Purpose.password_reset (some actor_user_id) db)
      else (Outcome.failed ServiceError.user_not_activated, db))

-- `resend_invite`
unfoldable pub resend_invite :
    Outside → (user_id actor_user_id lab_id : ℕ) → Db → Outcome Issued × Db
resend_invite outside user_id actor_user_id lab_id db =
    with_user (get_user user_id lab_id db) db (λ u.
      if is_some u.password_hash
      then (Outcome.failed ServiceError.user_already_activated, db)
      else issued_for (issue_setup_token outside u.id Purpose.activation (some actor_user_id) db))
