-- ===== src/Users/Manage/Disabled.antt =====
-- What a disabled user can still do.
use core_lab.Prelude.{
  ℕ, ◌≡◌, refl, sym, ap, subst, ◌∙◌, Bool, true, false, none, some, List, [], ◌∷◌, ◌==◌, arith,
  select, some_of, is_some, All, Bool-cases, inl, inr, if◌then◌else◌,
}
use core_lab.Accounts.Tables as Accounts
use core_lab.Accounts.Tables.{
  Link, RevokeCall, Reply, is_unexpected, AccountError, Attempt, active_of,
}
use core_lab.Accounts.Links.{get_active_link_for_actas}
use core_lab.Accounts.Unique.{Unique}
use core_lab.Accounts.Revoked.{actas-none}
use core_lab.Users.Tables.{
  User, ServerAdminGrant, Db, Outcome, AuditEvent, find_user, update_user_row, audit,
}
use core_lab.Users.Login.{Claims, get_current_user, if_active}
use core_lab.Users.Access.{
  is_users_link, is_users_grant, revoke_users_links, revoke_grants, cascade_revoke_access,
}
use core_lab.Users.Access.Links.{revoke_users_links-Revoked, covered-select}
use core_lab.Users.Access.Links as Links
use core_lab.Users.Access.Grants as Grants
use core_lab.Users.Access.Grants.{OnePerServer, revoke_grants-Revoked}
use core_lab.Users.Admins.{find_user-id, other-ensure}
use core_lab.Users.Manage.{
  disable_user, disable_found, set_users, set_active, get_user, is_other_admin,
  ensure_at_least_one_active_admin,
}

find_user-update :
    (n : ℕ) (f : User → User) (users : List User) (u : User)
    → ((v : User) → (f v).id ≡ v.id)
    → find_user n users ≡ some u
    → find_user n (update_user_row n f users) ≡ some (f u)
unfolding find_user update_user_row
find_user-update n f [] u keep h = cc
find_user-update n f (v ∷ users) u keep h = elim (Bool-cases (v.id == n)) [
  | inl e ↦ ground (arith, e, h, keep v)
  | inr e ↦ ground (arith, e, h, find_user-update n f users u keep)
]

-- What is left to a user in a session.
pub record ShutOut (u : ℕ) (db : Db) : Type 0 where
  pub no_request : (c : Claims) → get_current_user (record c { sub = u }) db ≡ none
  pub no_account :
      (p : ℕ)
      → get_active_link_for_actas u p db.accounts ≡ Attempt.failed AccountError.account_link_error
  pub no_grant : select (is_users_grant u) db.grants ≡ []

-- Every link is to an account of the table.
abbrev pub Joined : Db → Type 0
Joined db =
    All (λ l. is_some (db.accounts.physical_accounts l.physical_account_id) ≡ true)
      db.accounts.links

module _ (agent : RevokeCall → Reply) (handled : (c : RevokeCall) → is_unexpected (agent c) ≡ false)
    (n actor : ℕ) (db : Db) (unique : Unique db.accounts.links) (joined : Joined db)
    (one : OnePerServer n db.grants) where
  abbrev ls : List Link
  ls = select (is_users_link n db.accounts) db.accounts.links

  selected_active :
      (links : List Link)
      → All (λ l. l.is_active ≡ true) (select (is_users_link n db.accounts) links)
  selected_active [] = tt
  selected_active (l ∷ links) = go (is_users_link n db.accounts l) refl (selected_active links)
    where
      go :
          (b : Bool)
          → is_users_link n db.accounts l ≡ b
          → All (λ l. l.is_active ≡ true) (select (is_users_link n db.accounts) links)
          → All
              (λ l. l.is_active ≡ true)
              (if b
                then l ∷ select (is_users_link n db.accounts) links
                else select (is_users_link n db.accounts) links)
      go true e rest = (ground (arith, e), rest)
      go false e rest = rest

  usable :
      (p : ℕ) (links : List Link)
      → All (λ l. is_some (db.accounts.physical_accounts l.physical_account_id) ≡ true) links
      → All (λ l. active_of n p l ≡ true → is_users_link n db.accounts l ≡ true) links
  usable p [] h = tt
  usable p (l ∷ links) h = ((λ k. ground (arith, h.0, k)), usable p links h.1)

  -- The session when the user's row is off.
  off : User → Db
  off u =
      audit (AuditEvent.user_disabled u.id)
        (set_users (update_user_row u.id (set_active false) db.users) db)

  after_links : User → Db
  after_links u = (revoke_users_links agent actor ls (off u)).1

  links_Revoked :
      (u : User)
      → Links.Revoked ls n (off u) (after_links u) (revoke_users_links agent actor ls (off u)).0
  unfolding off after_links
  links_Revoked u =
      revoke_users_links-Revoked agent n actor ls (off u) handled unique
        (selected_active db.accounts.links)

  gs : User → List ServerAdminGrant
  gs u = select (is_users_grant n) (after_links u).grants

  grants_Revoked :
      (u : User)
      → Grants.Revoked
          (gs u)
          n
          (after_links u)
          (revoke_grants n actor (gs u) (after_links u)).1
          (revoke_grants n actor (gs u) (after_links u)).0
  unfolding off
  grants_Revoked u =
      revoke_grants-Revoked n actor (gs u) (after_links u)
        (subst (OnePerServer n) (sym (links_Revoked u).grants) one)

  -- What is left when the cascade is over.
  disabled : User → Db
  disabled u = (revoke_grants n actor (gs u) (after_links u)).1

  disable_found_lem :
      (u : User)
      → disable_found agent n actor db u ≡ (Outcome.done (set_active false u), disabled u)
  unfolding cascade_revoke_access off after_links gs disabled
  disable_found_lem u = ground (arith, (links_Revoked u).succeeds, (grants_Revoked u).succeeds)

  disabled-ShutOut : (u : User) → find_user n db.users ≡ some u → u.id ≡ n → ShutOut n (disabled u)
  unfolding disabled get_current_user off gs after_links
  disabled-ShutOut u found same = record {
    no_request = λ c. ap if_active row;
    no_account = λ p. actas-none n p (disabled u).accounts (
        ap (λ (a : Accounts.Db). select (active_of n p) a.links) (grants_Revoked u).accounts
        ∙ (links_Revoked u).none_left p (covered_off p));
    no_grant = (grants_Revoked u).none_left (Grants.covered-select n (after_links u).grants);
  }
    where
      covered_off : (p : ℕ) → Links.covered n p ls (off u).accounts.links ≡ true
      covered_off p =
          covered-select n p (is_users_link n db.accounts) db.accounts.links
            (usable p db.accounts.links joined)

      row : find_user n (disabled u).users ≡ some (set_active false u)
      row =
          ap (find_user n) ((grants_Revoked u).users ∙ (links_Revoked u).users)
          ∙ (ap (λ m. find_user n (update_user_row m (set_active false) db.users)) same
              ∙ find_user-update n (set_active false) db.users u (λ v. refl) found)

-- Where the target is a user of the lab, not the actor, another active administrator remains in the
-- lab, and every call of the agent has a reply, finds it offline or times out, disabling the user
-- succeeds, and afterwards no token of the
-- user is accepted for a request, the user can act with no account and no grant of the user is
-- active. The hypotheses on the tables are their constraints: one active link for each user and
-- account, each link to an account, and one active grant of the user for each server.
pub disable-ShutOut :
    (agent : RevokeCall → Reply) (n actor lab : ℕ) (db : Db) (u : User)
    → ((c : RevokeCall) → is_unexpected (agent c) ≡ false)
    → Unique db.accounts.links
    → Joined db
    → OnePerServer n db.grants
    → find_user n db.users ≡ some u
    → (u.lab_id == lab) ≡ true
    → (actor == n) ≡ false
    → some_of (is_other_admin lab n) db.users ≡ true
    → ((disable_user agent n actor lab db).0 ≡ Outcome.done (set_active false u))
      × ShutOut n (disable_user agent n actor lab db).1
unfolding disable_user get_user
disable-ShutOut agent n actor lab db u handled unique joined one found here apart other =
    let same = find_user-id n db.users u found in
    let whole = allowed same ∙ disable_found_lem agent handled n actor db unique joined one u in
    (
      ap (λ (r : Outcome User × Db). r.0) whole,
      subst (λ (r : Outcome User × Db). ShutOut n r.1) (sym whole)
          (disabled-ShutOut agent handled n actor db unique joined one u found same),
    )
  where
    allowed : u.id ≡ n → disable_user agent n actor lab db ≡ disable_found agent n actor db u
    allowed same = ground (
      arith,
      found,
      here,
      apart,
      subst (λ m. ensure_at_least_one_active_admin m lab db ≡ none) (sym same)
          (other-ensure lab n db other),
    )
