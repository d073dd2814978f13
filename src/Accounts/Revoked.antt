-- ===== src/Accounts/Revoked.antt =====
-- What is left of a link after a revocation, and what an upgrade makes of it.
use core_lab.Prelude.{
  ℕ, ◌≡◌, refl, sym, ap, ◌∙◌, subst, Bool, true, false, some, List, [], ◌∷◌, ◌++◌, arith, select,
  All, if◌then◌else◌,
}
use core_lab.Data.Row.{Text, LinkSource}
use core_lab.Accounts.Tables.{
  RevokeReason, Link, AuditEvent, Db, AccountError, Attempt, active_of, update_link, RevokeCall,
  Reply, is_unexpected,
}
use core_lab.Accounts.Links.{
  one_or_none, existing_active_link, is_admin_declared, acting, get_active_link_for_actas,
  deactivate, upgrade_from, upgrade_admin_declared_to_ssh, replace_link, add_link,
}
use core_lab.Accounts.Revoke.{revoke_link}
use core_lab.Accounts.Unique.{
  count, Unique, count-some, select-deactivate, add_link-links, add_link-done,
}
use core_lab.Accounts.Keeps.{
  revoke_link-done, replace_link_lem, db', db'-none, db'-Unique, db'-verified, verified,
}

selected :
    (u p : ℕ) (links : List Link) → All (λ l. active_of u p l ≡ true) (select (active_of u p) links)
selected u p [] = tt
selected u p (l ∷ links) = go (active_of u p l) refl (selected u p links)
  where
    go :
        (b : Bool)
        → active_of u p l ≡ b
        → All (λ l. active_of u p l ≡ true) (select (active_of u p) links)
        → All
            (λ l. active_of u p l ≡ true)
            (if b then l ∷ select (active_of u p) links else select (active_of u p) links)
    go true e r = (e, r)
    go false e r = r

existing-active :
    (u p : ℕ) (db : Db) (l : Link)
    → existing_active_link u p db ≡ Attempt.done (some l)
    → active_of u p l ≡ true
existing-active u p db l h =
    (subst (All (λ l. active_of u p l ≡ true)) (count-some u p db l h) (selected u p db.links)).0

pub actas-none :
    (u p : ℕ) (db : Db)
    → select (active_of u p) db.links ≡ []
    → get_active_link_for_actas u p db ≡ Attempt.failed AccountError.account_link_error
unfolding get_active_link_for_actas existing_active_link
actas-none u p db h = ap (λ ls. acting (one_or_none ls)) h

actas-one :
    (u p : ℕ) (db : Db) (l : Link)
    → select (active_of u p) db.links ≡ l ∷ []
    → get_active_link_for_actas u p db ≡ acting (Attempt.done (some l))
unfolding get_active_link_for_actas existing_active_link
actas-one u p db l h = ap (λ ls. acting (one_or_none ls)) h

-- Where a user has one active link to an account, no user has two, and every call of the agent has a
-- reply, finds it offline or times out, revoking that link succeeds, whatever becomes of the keys,
-- and the user cannot act with the account afterwards.
pub revoke-actas :
    (agent : RevokeCall → Reply) (u p : ℕ) (l : Link) (actor : ℕ) (reason : RevokeReason)
    (keys : Bool) (db : Db)
    → ((c : RevokeCall) → is_unexpected (agent c) ≡ false)
    → Unique db.links
    → existing_active_link u p db ≡ Attempt.done (some l)
    → ((revoke_link agent l actor reason keys db).0
        ≡ Attempt.done (deactivate actor reason db.clock l))
      × (get_active_link_for_actas u p (revoke_link agent l actor reason keys db).1
          ≡ Attempt.failed AccountError.account_link_error)
revoke-actas agent u p l actor reason keys db handled unique there =
    let (ended, links) = revoke_link-done agent l actor reason db keys handled active unique in
    (
      ended,
      actas-none u p (revoke_link agent l actor reason keys db).1
          (ap (select (active_of u p)) links ∙ none_left),
    )
  where
    active : l.is_active ≡ true
    active = ground (arith, existing-active u p db l there)

    none_left :
        select (active_of u p) (update_link l.id (deactivate actor reason db.clock) db.links) ≡ []
    none_left =
        select-deactivate actor reason db.clock l.id u p db.links
          (subst (All (λ x. x.id ≡ l.id)) (sym (count-some u p db l there)) (refl, tt))

-- Where a user's one active link to an account was declared by an administrator, and no user
-- has two, the user cannot act with it; the upgrade succeeds, and gives a link by challenge that the user
-- acts with from then on.
pub upgrade-actas :
    (u p : ℕ) (challenge fingerprint : Text) (db : Db) (old : Link)
    → Unique db.links
    → existing_active_link u p db ≡ Attempt.done (some old)
    → is_admin_declared old.source ≡ true
    → (get_active_link_for_actas u p db ≡ Attempt.failed AccountError.admin_declared_cannot_act_as)
      × ((l : Link) × ((upgrade_admin_declared_to_ssh u p challenge fingerprint db).0
            ≡ Attempt.done l)
          × (l.source ≡ LinkSource.ssh_challenge)
          × (get_active_link_for_actas u p
                (upgrade_admin_declared_to_ssh u p challenge fingerprint db).1
              ≡ Attempt.done l))
unfolding upgrade_admin_declared_to_ssh verified
upgrade-actas u p challenge fingerprint db old unique there declared = (
  actas-one u p db old (count-some u p db old there) ∙ ground (arith, declared),
  (
    new,
    ap (λ (x : Attempt Link × Db). x.0) same ∙ add_link-done new event off off-none off-Unique,
    refl,
    actas-one u p
        (upgrade_from (existing_active_link u p db) db
          (λ n. replace_link u p challenge fingerprint n db)).1
        new
        (ap (λ (x : Attempt Link × Db). select (active_of u p) x.1.links) same
          ∙ (ap (select (active_of u p)) (add_link-links new event off off-none off-Unique)
              ∙ one_new)),
  ),
)
  where
    new : Link
    new = verified u p challenge fingerprint db old there unique

    off : Db
    off = db' u p challenge fingerprint db old there unique

    off-none : count u p off.links ≡ 0
    off-none = db'-none u p challenge fingerprint db old there unique

    off-Unique : Unique off.links
    off-Unique = db'-Unique u p challenge fingerprint db old there unique

    event : AuditEvent
    event = AuditEvent.upgraded old.id db.next_link_id p challenge

    same :
        upgrade_from
          (existing_active_link u p db)
          db
          (λ n. replace_link u p challenge fingerprint n db)
        ≡ add_link new event off
    same =
        ap (λ r. upgrade_from r db (λ n. replace_link u p challenge fingerprint n db)) there
        ∙ (ground (arith, declared)
            ∙ replace_link_lem u p challenge fingerprint db old there unique)

    one_new : select (active_of u p) (off.links ++ new ∷ []) ≡ new ∷ []
    one_new = db'-verified u p challenge fingerprint db old there unique
