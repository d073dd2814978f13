-- ===== src/Users/Operations/LastAdmin.antt =====
-- A lab keeps an active administrator.
use core_lab.Prelude.{
  ℕ, ◌≡◌, true, false, Option, none, some, List, [], ◌∷◌, arith, select, Option-cases, inl, inr,
}
use core_lab.Accounts.Tables.{RevokeCall, Reply, Link}
use core_lab.Users.Tables.{
  User, ServerAdminGrant, Outside, Db, Outcome, one_or_none, find_user, update_user_row, audit,
  AuditEvent,
}
use core_lab.Users.Login.{record_logout}
use core_lab.Users.Tokens.{issue_setup_token, issue_registration_invite, revoke_registration_invite}
use core_lab.Users.Access.{
  revoke_users_links, revoke_users_link, revoke_grants, revoke_admin, revoke_granted,
  cascade_revoke_access, is_granted, is_users_link, is_users_grant,
}
use core_lab.Users.Manage.{disable_user, disable_found, set_users, set_active, get_user}
use core_lab.Users.Admins.{has_admin, Keeps, and_then-Keeps}
use core_lab.Users.Operations.{Operation, perform, run}
use core_lab.Users.Operations.Profile.{
  create_user-Keeps, update_user-Keeps, guarded_row, change_role-Keeps, reactivate_user-Keeps,
  change_password-Keeps, issue_password_reset-Keeps, resend_invite-Keeps, authenticate-Keeps,
}
use core_lab.Users.Operations.Redeemed.{add_key-Keeps, remove_key-Keeps, activate-Keeps}

module _ (lab : ℕ) where
  links-Keeps :
      (agent : RevokeCall → Reply) (actor : ℕ) (ls : List Link) (db : Db)
      → has_admin lab db.users ≡ true
      → Keeps lab (revoke_users_links agent actor ls db)
  unfolding revoke_users_links
  links-Keeps agent actor [] db h = h
  links-Keeps agent actor (l ∷ ls) db h =
      and_then-Keeps lab (revoke_users_link agent actor l db)
        (λ ok db. revoke_users_links agent actor ls db) h
        (λ ok db k. links-Keeps agent actor ls db k)

  grants-Keeps :
      (n actor : ℕ) (gs : List ServerAdminGrant) (db : Db)
      → has_admin lab db.users ≡ true
      → Keeps lab (revoke_grants n actor gs db)
  unfolding revoke_grants revoke_admin
  grants-Keeps n actor [] db h = h
  grants-Keeps n actor (g ∷ gs) db h =
      and_then-Keeps lab (revoke_admin g.server_id n actor db)
        (λ revoked db. revoke_grants n actor gs db)
        (granted (one_or_none (select (is_granted g.server_id n) db.grants)))
        (λ revoked db k. grants-Keeps n actor gs db k)
    where
      granted : (r : Outcome (Option ServerAdminGrant)) → Keeps lab (revoke_granted actor db r)
      granted (Outcome.failed e) = h
      granted (Outcome.done none) = h
      granted (Outcome.done (some g)) = h

  cascade-Keeps :
      (agent : RevokeCall → Reply) (n actor : ℕ) (db : Db)
      → has_admin lab db.users ≡ true
      → Keeps lab (cascade_revoke_access agent n actor db)
  unfolding cascade_revoke_access
  cascade-Keeps agent n actor db h =
      and_then-Keeps lab
        (revoke_users_links agent actor (select (is_users_link n db.accounts) db.accounts.links) db)
        (λ ok db. revoke_grants n actor (select (is_users_grant n) db.grants) db)
        (links-Keeps agent actor (select (is_users_link n db.accounts) db.accounts.links) db h)
        (λ ok db k. grants-Keeps n actor (select (is_users_grant n) db.grants) db k)

  disable_user-Keeps :
      (agent : RevokeCall → Reply) (n actor lab_id : ℕ) (db : Db)
      → has_admin lab db.users ≡ true
      → Keeps lab (disable_user agent n actor lab_id db)
  unfolding disable_user get_user
  disable_user-Keeps agent n actor lab_id db h = elim (Option-cases (find_user n db.users)) [
    | inl e ↦ ground (arith, e, h)
    | inr (u, e) ↦
        ground (arith, e, h, disabled u, guarded_row lab db h n lab_id (set_active false) u e)
  ]
    where
      disabled :
          (u : User)
          → has_admin lab (update_user_row u.id (set_active false) db.users) ≡ true
          → Keeps lab (disable_found agent n actor db u)
      disabled u k =
          and_then-Keeps lab
            (cascade_revoke_access agent n actor (
              audit (AuditEvent.user_disabled u.id)
                (set_users (update_user_row u.id (set_active false) db.users) db)))
            (λ ok db. (Outcome.done (set_active false u), db))
            (cascade-Keeps agent n actor
              (audit (AuditEvent.user_disabled u.id)
                (set_users (update_user_row u.id (set_active false) db.users) db))
              k)
            (λ ok db k. k)

  perform-admin :
      (outside : Outside) (agent : RevokeCall → Reply) (op : Operation) (db : Db)
      → has_admin lab db.users ≡ true
      → has_admin lab (perform outside agent op db).users ≡ true
  unfolding perform record_logout issue_setup_token issue_registration_invite
      revoke_registration_invite
  perform-admin outside agent (Operation.login payload ip) db h =
      authenticate-Keeps lab db h outside payload ip
  perform-admin outside agent (Operation.logout actor) db h = h
  perform-admin outside agent (Operation.issue_token n purpose actor) db h = h
  perform-admin outside agent (Operation.issue_invite lab_id role actor) db h = h
  perform-admin outside agent (Operation.revoke_invite n lab_id actor) db h = ground (arith, h)
  perform-admin outside agent (Operation.redeem_token token a) db h =
      activate-Keeps lab outside token a db h
  perform-admin outside agent (Operation.create payload lab_id actor) db h =
      create_user-Keeps lab db h outside payload lab_id actor
  perform-admin outside agent (Operation.update n payload actor role lab_id) db h =
      update_user-Keeps lab db h outside n payload actor role lab_id
  perform-admin outside agent (Operation.set_role n role actor lab_id) db h =
      change_role-Keeps lab db h n role actor lab_id
  perform-admin outside agent (Operation.disable n actor lab_id) db h =
      disable_user-Keeps agent n actor lab_id db h
  perform-admin outside agent (Operation.reactivate n lab_id) db h =
      reactivate_user-Keeps lab db h n lab_id
  perform-admin outside agent (Operation.set_password actor lab_id old new) db h =
      change_password-Keeps lab db h outside actor lab_id old new
  perform-admin outside agent (Operation.reset n actor lab_id) db h =
      issue_password_reset-Keeps lab db h outside n actor lab_id
  perform-admin outside agent (Operation.resend n actor lab_id) db h =
      resend_invite-Keeps lab db h outside n actor lab_id
  perform-admin outside agent (Operation.new_key key label owner) db h =
      add_key-Keeps lab outside key label owner db h
  perform-admin outside agent (Operation.delete_key n owner) db h =
      remove_key-Keeps lab n owner db h

-- A lab that has an active administrator has one after any sequence of operations on users, tokens,
-- invites and keys, whoever makes them and for whichever lab, whether each succeeds or raises, and
-- whatever the agent and the code outside do.
pub run-admin :
    (lab : ℕ) (outside : Outside) (agent : RevokeCall → Reply) (ops : List Operation) (db : Db)
    → has_admin lab db.users ≡ true
    → has_admin lab (run outside agent ops db).users ≡ true
unfolding run
run-admin lab outside agent [] db h = h
run-admin lab outside agent (op ∷ ops) db h =
    run-admin lab outside agent ops (perform outside agent op db)
      (perform-admin lab outside agent op db h)
