-- ===== src/Accounts/Keeps.antt =====
-- The operations on links, one after the other.
use core_lab.Prelude.{
  ℕ, ◌≡◌, refl, sym, ap, ◌∙◌, subst, Bool, true, false, ◌||◌, Option, none, some, List, [], ◌∷◌,
  ◌++◌, arith, length, select, select-append, ==_refl, All, if◌then◌else◌, Bool-cases, inl, inr,
}
use core_lab.Data.Row.{Text, LinkSource}
use core_lab.Accounts.Tables.{
  RevokeReason, ProofEvidence, Link, KeyOutcome, AuditEvent, Db, AccountError, Attempt, active_of,
  update_link, RevokeCall, Reply, is_unexpected,
}
use core_lab.Accounts.Links.{
  existing_active_link, is_admin_declared, add_link, new_link, unless_linked, establish_via_pam,
  establish_via_ssh_challenge, admin_declare_link, deactivate, replace_link, upgrade_from,
  upgrade_admin_declared_to_ssh,
}
use core_lab.Accounts.Revoke.{
  load_link_in_lab, revoke_keys_if, revoke_link, end_revoke, revoked_row,
}
use core_lab.Accounts.Revoke.Ends.{Ends, revoke_keys_if-links, revoke_keys_if-Ends}
use core_lab.Accounts.Unique.{
  count, Unique, Unique-is_unique, count-none, count-some, existing-done, Unique-deactivate,
  select-deactivate, add_link-done, add_link-links, links_after-Unique,
}

pub data Operation : Type 0 where
  pam : (user_id physical_account_id : ℕ) → Operation
  ssh_challenge :
      (user_id physical_account_id : ℕ) (challenge_id signer_fingerprint : Text) → Operation
  declare :
      (physical_account_id owner_user_id : ℕ) (reason : Text) (declared_by_user_id : ℕ) → Operation
  upgrade : (user_id physical_account_id : ℕ) (challenge_id signer_fingerprint : Text) → Operation
  revoke :
      (link_id lab_id actor_user_id : ℕ) (reason : RevokeReason) (revoke_key : Bool) → Operation

abbrev with_link : Db → Attempt Link → (Link → Attempt Link × Db) → Attempt Link × Db
with_link db (Attempt.failed e) next = (Attempt.failed e, db)
with_link db (Attempt.done l) next = next l

unfoldable pub perform : (RevokeCall → Reply) → Operation → Db → Attempt Link × Db
perform agent (Operation.pam u p) db = establish_via_pam u p db
perform agent (Operation.ssh_challenge u p c f) db = establish_via_ssh_challenge u p c f db
perform agent (Operation.declare p u r by) db = admin_declare_link p u r by db
perform agent (Operation.upgrade u p c f) db = upgrade_admin_declared_to_ssh u p c f db
perform agent (Operation.revoke n lab actor reason keys) db =
    with_link db (load_link_in_lab n lab db) (λ l. revoke_link agent l actor reason keys db)

unfoldable pub run : (RevokeCall → Reply) → List Operation → Db → Db
run agent [] db = db
run agent (op ∷ ops) db = run agent ops (perform agent op db).1

-- An error of the database rather than of the service.
abbrev pub is_database_error : Attempt Link → Bool
is_database_error (Attempt.failed AccountError.integrity_error) = true
is_database_error (Attempt.failed AccountError.multiple_results_found) = true
is_database_error _ = false

abbrev pub Kept : Attempt Link × Db → Type 0
Kept r = Unique r.1.links × (is_database_error r.0 ≡ false)

add_link-Kept :
    (l : Link) (event : AuditEvent) (db : Db)
    → count l.user_id l.physical_account_id db.links ≡ 0
    → Unique db.links
    → Kept (add_link l event db)
add_link-Kept l event db h k = (
  subst Unique (sym (add_link-links l event db h k)) (links_after-Unique l event db h k),
  ap is_database_error (add_link-done l event db h k),
)

unless_linked-Kept :
    (u p : ℕ) (db : Db) (l : Link) (event : AuditEvent)
    → l.user_id ≡ u
    → l.physical_account_id ≡ p
    → Unique db.links
    → Kept (unless_linked (existing_active_link u p db) db (add_link l event db))
unless_linked-Kept u p db l event same_user same_account unique =
    let (o, e) = existing-done u p db unique in go o e
  where
    go :
        (o : Option Link)
        → existing_active_link u p db ≡ Attempt.done o
        → Kept (unless_linked (existing_active_link u p db) db (add_link l event db))
    go none e =
        subst (λ r. Kept (unless_linked r db (add_link l event db))) (sym e)
          (add_link-Kept l event db
            (ap (λ x. count x l.physical_account_id db.links) same_user
              ∙ (ap (λ x. count u x db.links) same_account ∙ count-none u p db e))
            unique)
    go (some x) e =
        subst (λ r. Kept (unless_linked r db (add_link l event db))) (sym e) (unique, refl)

-- The table after an upgraded link is inactive.
module _ (u p : ℕ) (challenge fingerprint : Text) (db : Db) (old : Link)
    (there : existing_active_link u p db ≡ Attempt.done (some old)) (unique : Unique db.links) where
  unfoldable pub old_off : List Link
  old_off = update_link old.id (deactivate u RevokeReason.upgraded_to_verified db.clock) db.links

  old_off-Unique : Unique old_off
  unfolding old_off
  old_off-Unique =
      Unique-deactivate u RevokeReason.upgraded_to_verified db.clock old.id db.links unique

  pub old_off-none : select (active_of u p) old_off ≡ []
  unfolding old_off
  old_off-none =
      select-deactivate u RevokeReason.upgraded_to_verified db.clock old.id u p db.links
        (subst (All (λ l. l.id ≡ old.id)) (sym (count-some u p db old there)) (refl, tt))

  unfoldable pub db' : Db
  db' = record db { links = old_off }

  unfoldable pub verified : Link
  verified =
      new_link db' u p LinkSource.ssh_challenge
        (ProofEvidence.ssh_sign challenge fingerprint db.clock (some old.id)) u

  pub replace_link_lem :
      replace_link u p challenge fingerprint old.id db
      ≡ add_link verified (AuditEvent.upgraded old.id db.next_link_id p challenge) db'
  unfolding replace_link old_off db' verified
  replace_link_lem = ground (arith, Unique-is_unique old_off old_off-Unique)

  pub db'-none : count u p db'.links ≡ 0
  unfolding db'
  db'-none = ap length old_off-none

  pub db'-Unique : Unique db'.links
  unfolding db'
  db'-Unique = old_off-Unique

  pub db'-verified : select (active_of u p) (db'.links ++ verified ∷ []) ≡ verified ∷ []
  unfolding db' verified
  db'-verified = ground (
    arith,
    select-append (active_of u p) old_off (verified ∷ []),
    old_off-none,
    ==_refl u,
    ==_refl p,
  )

  replace_link-Kept : Kept (replace_link u p challenge fingerprint old.id db)
  unfolding verified
  replace_link-Kept = subst Kept (sym replace_link_lem) (
      add_link-Kept verified (AuditEvent.upgraded old.id db.next_link_id p challenge) db' db'-none
        db'-Unique)

upgrade-Kept :
    (u p : ℕ) (challenge fingerprint : Text) (db : Db)
    → Unique db.links
    → Kept (upgrade_admin_declared_to_ssh u p challenge fingerprint db)
unfolding upgrade_admin_declared_to_ssh
upgrade-Kept u p challenge fingerprint db unique =
    let (o, e) = existing-done u p db unique in go o e
  where
    next : ℕ → Attempt Link × Db
    next n = replace_link u p challenge fingerprint n db

    by_source :
        (old : Link) (b : Bool)
        → existing_active_link u p db ≡ Attempt.done (some old)
        → Kept (if b then next old.id else (Attempt.failed AccountError.account_link_error, db))
    by_source old true e = replace_link-Kept u p challenge fingerprint db old e unique
    by_source old false e = (unique, refl)

    go :
        (o : Option Link)
        → existing_active_link u p db ≡ Attempt.done o
        → Kept (upgrade_from (existing_active_link u p db) db next)
    go none e = subst (λ r. Kept (upgrade_from r db next)) (sym e) (unique, refl)
    go (some old) e =
        subst (λ r. Kept (upgrade_from r db next)) (sym e)
          (by_source old (is_admin_declared old.source) e)

module _ (agent : RevokeCall → Reply) (l : Link) (actor : ℕ) (reason : RevokeReason) (db : Db) where
  abbrev pub revoked_links : List Link
  revoked_links = update_link l.id (deactivate actor reason db.clock) db.links

  abbrev keys_of : Bool → Option (List KeyOutcome) × Db
  keys_of keys =
      revoke_keys_if keys agent l.user_id actor (db.physical_accounts l.physical_account_id)
        (revoked_row l actor reason db)

  -- A revocation of an active link flushes, where the constraint holds, and goes on to its keys.
  pub revoke_link-flushed :
      (keys : Bool)
      → l.is_active ≡ true
      → Unique db.links
      → revoke_link agent l actor reason keys db ≡ end_revoke l actor reason keys db (keys_of keys)
  unfolding revoke_link
  revoke_link-flushed keys active unique = ground (
    arith,
    active,
    Unique-is_unique revoked_links (Unique-deactivate actor reason db.clock l.id db.links unique),
  )

  end_revoke-done :
      (keys : Bool) (r : Option (List KeyOutcome) × Db)
      → Ends r
      → ((end_revoke l actor reason keys db r).0
          ≡ Attempt.done (deactivate actor reason db.clock l))
        × ((end_revoke l actor reason keys db r).1.links ≡ r.1.links)
  end_revoke-done keys (none, after) h = cc (h.1)
  end_revoke-done keys (some outcomes, after) h = (refl, refl)

  -- What a revocation of an active link comes to, where the constraint holds and the agent's
  -- replies are handled.
  pub revoke_link-done :
      (keys : Bool)
      → ((c : RevokeCall) → is_unexpected (agent c) ≡ false)
      → l.is_active ≡ true
      → Unique db.links
      → ((revoke_link agent l actor reason keys db).0
          ≡ Attempt.done (deactivate actor reason db.clock l))
        × ((revoke_link agent l actor reason keys db).1.links ≡ revoked_links)
  revoke_link-done keys handled active unique =
      let whole = revoke_link-flushed keys active unique in
      let (ended, links) = end_revoke-done keys (keys_of keys) (
        revoke_keys_if-Ends keys agent l.user_id actor (db.physical_accounts l.physical_account_id)
          (revoked_row l actor reason db) handled) in
      (
        ap (λ (x : Attempt Link × Db). x.0) whole ∙ ended,
        ap (λ (x : Attempt Link × Db). x.1.links) whole
            ∙ (links
                ∙ revoke_keys_if-links keys agent l.user_id actor
                    (db.physical_accounts l.physical_account_id) (revoked_row l actor reason db)),
      )

  end_revoke-Kept :
      (keys : Bool) (r : Option (List KeyOutcome) × Db)
      → Unique db.links
      → Unique r.1.links
      → Kept (end_revoke l actor reason keys db r)
  end_revoke-Kept keys (none, after) h k = (h, refl)
  end_revoke-Kept keys (some outcomes, after) h k = (k, refl)

  revoke_link-Kept :
      (keys : Bool) → Unique db.links → Kept (revoke_link agent l actor reason keys db)
  unfolding revoke_link
  revoke_link-Kept keys unique = elim (Bool-cases l.is_active) [
    | inl active ↦ subst Kept (sym (revoke_link-flushed keys active unique)) (
        end_revoke-Kept keys (keys_of keys) unique (
          subst Unique
            (sym (
              revoke_keys_if-links keys agent l.user_id actor
                (db.physical_accounts l.physical_account_id) (revoked_row l actor reason db)))
            (Unique-deactivate actor reason db.clock l.id db.links unique)))
    | inr inactive ↦ subst Kept (sym (refused inactive)) (unique, refl)
  ]
    where
      refused :
          l.is_active ≡ false
          → revoke_link agent l actor reason keys db
            ≡ (Attempt.failed AccountError.account_link_error, db)
      refused inactive = ground (arith, inactive)

-- A link that is not found in the lab fails with an error of the service.
load-service :
    (n lab : ℕ) (db : Db) (e : AccountError)
    → load_link_in_lab n lab db ≡ Attempt.failed e
    → is_database_error (Attempt.failed e) ≡ false
unfolding load_link_in_lab
load-service n lab db e h = ground arith

pub perform-Kept :
    (agent : RevokeCall → Reply) (op : Operation) (db : Db)
    → Unique db.links
    → Kept (perform agent op db)
unfolding perform establish_via_pam establish_via_ssh_challenge admin_declare_link
perform-Kept agent (Operation.pam u p) db unique = unless_linked-Kept u p db _ _ refl refl unique
perform-Kept agent (Operation.ssh_challenge u p c f) db unique =
    unless_linked-Kept u p db _ _ refl refl unique
perform-Kept agent (Operation.declare p u r by) db unique =
    unless_linked-Kept u p db _ _ refl refl unique
perform-Kept agent (Operation.upgrade u p c f) db unique = upgrade-Kept u p c f db unique
perform-Kept agent (Operation.revoke n lab actor reason keys) db unique =
    go (load_link_in_lab n lab db) refl
  where
    go :
        (r : Attempt Link)
        → load_link_in_lab n lab db ≡ r
        → Kept (with_link db r (λ l. revoke_link agent l actor reason keys db))
    go (Attempt.failed e) h = (unique, load-service n lab db e h)
    go (Attempt.done l) h = revoke_link-Kept agent l actor reason db keys unique

-- Some operation of a run meets an error of the database.
unfoldable pub meets_database_error : (RevokeCall → Reply) → List Operation → Db → Bool
meets_database_error agent [] db = false
meets_database_error agent (op ∷ ops) db =
    is_database_error (perform agent op db).0
    || meets_database_error agent ops (perform agent op db).1

-- From a table with at most one active link for each user and account, any sequence of
-- establishing, declaring, upgrading and revoking links, one after the other, leaves such a table,
-- whatever becomes of the calls of the agent, and none of them meets the unique constraint or a query that finds more than one row.
pub run-Unique :
    (agent : RevokeCall → Reply) (ops : List Operation) (db : Db)
    → Unique db.links
    → Unique (run agent ops db).links × (meets_database_error agent ops db ≡ false)
unfolding run meets_database_error
run-Unique agent [] db unique = (unique, refl)
run-Unique agent (op ∷ ops) db unique =
    let (next, fine) = perform-Kept agent op db unique in
    let (last, rest) = run-Unique agent ops (perform agent op db).1 next in
    (last, ground (arith, fine, rest))
