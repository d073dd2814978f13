-- ===== src/Users/Operations.antt =====
-- The operations on users, one after the other; each request leaves its session, raised or not.
mod Profile
mod Redeemed
pub mod LastAdmin
use core_lab.Prelude.{ℕ, Bool, Option, List, [], ◌∷◌}
use core_lab.Data.Row.{Text}
use core_lab.Accounts.Tables.{RevokeCall, Reply}
use core_lab.Users.Tables.{Role, Purpose, Outside, Db}
use core_lab.Users.Keys.{add_key, remove_key}
use core_lab.Users.Login.{LoginRequest, authenticate, record_logout}
use core_lab.Users.Tokens.{issue_setup_token, issue_registration_invite, revoke_registration_invite}
use core_lab.Users.Manage.{
  UserCreate, UserUpdate, create_user, update_user, change_role, disable_user, reactivate_user,
  change_password, issue_password_reset, resend_invite,
}
use core_lab.Users.Activate.{Activation, activate}

pub data Operation : Type 0 where
  login : LoginRequest → (request_ip : Option Text) → Operation
  logout : (actor_user_id : ℕ) → Operation
  issue_token : (user_id : ℕ) (purpose : Purpose) (actor_user_id : Option ℕ) → Operation
  issue_invite : (lab_id : ℕ) (role : Role) (actor_user_id : ℕ) → Operation
  revoke_invite : (invite_id lab_id actor_user_id : ℕ) → Operation
  redeem_token : (token : Text) → Activation → Operation
  create : UserCreate → (lab_id actor_user_id : ℕ) → Operation
  update :
      (user_id : ℕ) (payload : UserUpdate) (actor_user_id : ℕ) (actor_role : Role) (lab_id : ℕ)
      → Operation
  set_role : (user_id : ℕ) (role : Role) (actor_user_id lab_id : ℕ) → Operation
  disable : (user_id actor_user_id lab_id : ℕ) → Operation
  reactivate : (user_id lab_id : ℕ) → Operation
  set_password : (actor_user_id lab_id : ℕ) (old_password new_password : Text) → Operation
  reset resend : (user_id actor_user_id lab_id : ℕ) → Operation
  new_key : (public_key : Text) (label : Option Text) (owner_user_id : ℕ) → Operation
  delete_key : (key_id owner_user_id : ℕ) → Operation

unfoldable pub perform : Outside → (RevokeCall → Reply) → Operation → Db → Db
perform outside agent (Operation.login payload ip) db = (authenticate outside payload ip db).1
perform outside agent (Operation.logout actor) db = record_logout actor db
perform outside agent (Operation.issue_token n purpose actor) db =
    (issue_setup_token outside n purpose actor db).1
perform outside agent (Operation.issue_invite lab role actor) db =
    (issue_registration_invite outside lab role actor db).1
perform outside agent (Operation.revoke_invite n lab actor) db =
    (revoke_registration_invite n lab actor db).1
perform outside agent (Operation.redeem_token token a) db = (activate outside token a db).1
perform outside agent (Operation.create payload lab actor) db =
    (create_user outside payload lab actor db).1
perform outside agent (Operation.update n payload actor role lab) db =
    (update_user outside n payload actor role lab db).1
perform outside agent (Operation.set_role n role actor lab) db = (change_role n role actor lab db).1
perform outside agent (Operation.disable n actor lab) db = (disable_user agent n actor lab db).1
perform outside agent (Operation.reactivate n lab) db = (reactivate_user n lab db).1
perform outside agent (Operation.set_password actor lab old new) db =
    (change_password outside actor lab old new db).1
perform outside agent (Operation.reset n actor lab) db =
    (issue_password_reset outside n actor lab db).1
perform outside agent (Operation.resend n actor lab) db = (resend_invite outside n actor lab db).1
perform outside agent (Operation.new_key key label owner) db =
    (add_key outside key label owner db).1
perform outside agent (Operation.delete_key n owner) db = (remove_key n owner db).1

unfoldable pub run : Outside → (RevokeCall → Reply) → List Operation → Db → Db
run outside agent [] db = db
run outside agent (op ∷ ops) db = run outside agent ops (perform outside agent op db)
