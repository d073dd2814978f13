-- ===== src/Users/Access.antt =====
-- How a user who is disabled loses the links to accounts and the grants on servers.
pub mod Links
pub mod Grants
use core_lab.Prelude.{
  ℕ, Bool, true, false, ◌&&◌, Option, none, some, List, [], ◌∷◌, ◌==◌, select, is_some,
  if◌then◌else◌,
}
use core_lab.Data.Row.{Instant}
use core_lab.Accounts.Tables.{Link, RevokeReason, RevokeCall, Reply, Attempt}
use core_lab.Accounts.Tables as AccountTables
use core_lab.Accounts.Revoke.{revoke_link}
use core_lab.Users.Tables.{
  ServerAdminGrant, AuditEvent, Db, ServiceError, Outcome, and_then, one_or_none, audit, now,
}

-- `grant.is_active = 0` and the attributes set beside it.
abbrev pub end_grant : (actor_user_id : ℕ) → Instant → ServerAdminGrant → ServerAdminGrant
end_grant actor_user_id at g = record g {
  is_active = false;
  revoked_by_user_id = some actor_user_id;
  revoked_at = some at;
}

unfoldable pub update_grant :
    ℕ → (ServerAdminGrant → ServerAdminGrant) → List ServerAdminGrant → List ServerAdminGrant
update_grant n f [] = []
update_grant n f (g ∷ grants) = (if g.id == n then f g else g) ∷ update_grant n f grants

abbrev pub is_granted : (server_id user_id : ℕ) → ServerAdminGrant → Bool
is_granted server_id user_id g = g.server_id == server_id && (g.user_id == user_id && g.is_active)

abbrev pub revoke_granted :
    (actor_user_id : ℕ)
    → Db
    → Outcome (Option ServerAdminGrant)
    → Outcome (Option ServerAdminGrant) × Db
revoke_granted actor_user_id db (Outcome.failed e) = (Outcome.failed e, db)
revoke_granted actor_user_id db (Outcome.done none) = (Outcome.done none, db)
revoke_granted actor_user_id db (Outcome.done (some g)) = (
  Outcome.done (some (end_grant actor_user_id (now db) g)),
  audit (AuditEvent.grant_revoked actor_user_id g.id g.server_id g.user_id)
      (record db { grants = update_grant g.id (end_grant actor_user_id (now db)) db.grants }),
)

-- `revoke_admin` of the server service
unfoldable pub revoke_admin :
    (server_id user_id actor_user_id : ℕ) → Db → Outcome (Option ServerAdminGrant) × Db
revoke_admin server_id user_id actor_user_id db =
    revoke_granted actor_user_id db (one_or_none (select (is_granted server_id user_id) db.grants))

-- A row of the join of active links of the user with their accounts.
abbrev pub is_users_link : (user_id : ℕ) → AccountTables.Db → Link → Bool
is_users_link user_id accounts l =
    is_some (accounts.physical_accounts l.physical_account_id)
    && (l.user_id == user_id && l.is_active)

abbrev pub link_outcome : Attempt Link → Outcome Bool
link_outcome (Attempt.done l) = Outcome.done true
link_outcome (Attempt.failed e) = Outcome.failed (ServiceError.account_error e)

abbrev pub revoke_users_link :
    (RevokeCall → Reply) → (actor_user_id : ℕ) → Link → Db → Outcome Bool × Db
revoke_users_link agent actor_user_id l db =
    let (result, accounts) =
      revoke_link agent l actor_user_id RevokeReason.user_disabled true db.accounts in
    (link_outcome result, record db { accounts = accounts })

unfoldable pub revoke_users_links :
    (RevokeCall → Reply) → (actor_user_id : ℕ) → List Link → Db → Outcome Bool × Db
revoke_users_links agent actor_user_id [] db = (Outcome.done true, db)
revoke_users_links agent actor_user_id (l ∷ links) db =
    and_then (revoke_users_link agent actor_user_id l db)
      (λ ok db. revoke_users_links agent actor_user_id links db)

unfoldable pub revoke_grants :
    (user_id actor_user_id : ℕ) → List ServerAdminGrant → Db → Outcome Bool × Db
revoke_grants user_id actor_user_id [] db = (Outcome.done true, db)
revoke_grants user_id actor_user_id (g ∷ grants) db =
    and_then (revoke_admin g.server_id user_id actor_user_id db)
      (λ revoked db. revoke_grants user_id actor_user_id grants db)

abbrev pub is_users_grant : (user_id : ℕ) → ServerAdminGrant → Bool
is_users_grant user_id g = g.user_id == user_id && g.is_active

-- `_cascade_revoke_access`
unfoldable pub cascade_revoke_access :
    (RevokeCall → Reply) → (user_id actor_user_id : ℕ) → Db → Outcome Bool × Db
cascade_revoke_access agent user_id actor_user_id db =
    and_then
      (revoke_users_links agent actor_user_id
        (select (is_users_link user_id db.accounts) db.accounts.links) db)
      (λ ok db. revoke_grants user_id actor_user_id (select (is_users_grant user_id) db.grants) db)
