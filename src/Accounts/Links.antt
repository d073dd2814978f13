-- ===== src/Accounts/Links.antt =====
-- Establishing, declaring and upgrading links, and the link that a user acts with.
use core_lab.Prelude.{
  ℕ, ◌+◌, Bool, true, false, Option, none, some, List, [], ◌∷◌, ◌++◌, select, if◌then◌else◌,
}
use core_lab.Data.Row.{Text, Instant, LinkSource}
use core_lab.Accounts.Tables.{
  RevokeReason, ProofEvidence, Link, AuditEvent, Db, AccountError, Attempt, active_of, flush,
  update_link,
}

-- `scalar_one_or_none`
abbrev pub one_or_none : List Link → Attempt (Option Link)
one_or_none [] = Attempt.done none
one_or_none (l ∷ []) = Attempt.done (some l)
one_or_none (l ∷ m ∷ links) = Attempt.failed AccountError.multiple_results_found

-- `_existing_active_link`
unfoldable pub existing_active_link : (user_id physical_account_id : ℕ) → Db → Attempt (Option Link)
existing_active_link user_id physical_account_id db =
    one_or_none (select (active_of user_id physical_account_id) db.links)

abbrev pub is_admin_declared : LinkSource → Bool
is_admin_declared LinkSource.admin_declared = true
is_admin_declared _ = false

abbrev pub acting : Attempt (Option Link) → Attempt Link
acting (Attempt.failed e) = Attempt.failed e
acting (Attempt.done none) = Attempt.failed AccountError.account_link_error
acting (Attempt.done (some l)) =
    if is_admin_declared l.source
    then Attempt.failed AccountError.admin_declared_cannot_act_as
    else Attempt.done l

unfoldable pub get_active_link_for_actas : (user_id physical_account_id : ℕ) → Db → Attempt Link
get_active_link_for_actas user_id physical_account_id db =
    acting (existing_active_link user_id physical_account_id db)

-- `session.add(link)`, the flush, and the audit row.
unfoldable pub add_link : Link → AuditEvent → Db → Attempt Link × Db
add_link l event db =
    let db' = record db { links = db.links ++ l ∷ []; next_link_id = db.next_link_id + 1 } in
    flush db' (Attempt.done l, record db' { audits = db'.audits ++ event ∷ [] })

abbrev pub new_link :
    Db
    → (user_id physical_account_id : ℕ) → LinkSource
    → ProofEvidence
    → (established_by_user_id : ℕ) → Link
new_link db user_id physical_account_id source proof established_by_user_id = record {
  id = db.next_link_id;
  user_id = user_id;
  physical_account_id = physical_account_id;
  source = source;
  proof_evidence = proof;
  established_by_user_id = established_by_user_id;
  is_active = true;
  revoked_at = none;
  revoked_by_user_id = none;
  revoke_reason = none;
}

-- Go on where there is no active link.
abbrev pub unless_linked : Attempt (Option Link) → Db → Attempt Link × Db → Attempt Link × Db
unless_linked (Attempt.failed e) db next = (Attempt.failed e, db)
unless_linked (Attempt.done (some l)) db next =
    (Attempt.failed AccountError.link_already_active, db)
unless_linked (Attempt.done none) db next = next

unfoldable pub establish_via_pam : (user_id physical_account_id : ℕ) → Db → Attempt Link × Db
establish_via_pam user_id physical_account_id db =
    unless_linked (existing_active_link user_id physical_account_id db) db (
      add_link
        (new_link db user_id physical_account_id LinkSource.password_pam
          (ProofEvidence.pam db.clock) user_id)
        (AuditEvent.established db.next_link_id physical_account_id LinkSource.password_pam none)
        db)

unfoldable pub establish_via_ssh_challenge :
    (user_id physical_account_id : ℕ)
    → (challenge_id signer_fingerprint : Text) → Db
    → Attempt Link × Db
establish_via_ssh_challenge user_id physical_account_id challenge_id signer_fingerprint db =
    unless_linked (existing_active_link user_id physical_account_id db) db (
      add_link
        (new_link db user_id physical_account_id LinkSource.ssh_challenge
          (ProofEvidence.ssh_sign challenge_id signer_fingerprint db.clock none) user_id)
        (AuditEvent.established db.next_link_id physical_account_id LinkSource.ssh_challenge
          (some challenge_id))
        db)

unfoldable pub admin_declare_link :
    (physical_account_id owner_user_id : ℕ)
    → (reason : Text) → (declared_by_user_id : ℕ) → Db
    → Attempt Link × Db
admin_declare_link physical_account_id owner_user_id reason declared_by_user_id db =
    unless_linked (existing_active_link owner_user_id physical_account_id db) db (
      add_link
        (new_link db owner_user_id physical_account_id LinkSource.admin_declared
          (ProofEvidence.declared declared_by_user_id db.clock reason) declared_by_user_id)
        (AuditEvent.admin_declared db.next_link_id owner_user_id physical_account_id reason) db)

unfoldable pub deactivate : (actor_user_id : ℕ) → RevokeReason → Instant → Link → Link
deactivate actor_user_id reason now l = record l {
  is_active = false;
  revoked_at = some now;
  revoked_by_user_id = some actor_user_id;
  revoke_reason = some reason;
}

unfoldable pub replace_link :
    (user_id physical_account_id : ℕ)
    → (challenge_id signer_fingerprint : Text) → (old_link_id : ℕ) → Db
    → Attempt Link × Db
replace_link user_id physical_account_id challenge_id signer_fingerprint old_link_id db =
    let db' = record db {
      links =
          update_link old_link_id (deactivate user_id RevokeReason.upgraded_to_verified db.clock)
            db.links;
    } in
    flush db' (
      add_link
        (new_link db' user_id physical_account_id LinkSource.ssh_challenge
          (ProofEvidence.ssh_sign challenge_id signer_fingerprint db.clock (some old_link_id))
          user_id)
        (AuditEvent.upgraded old_link_id db.next_link_id physical_account_id challenge_id) db')

abbrev pub upgrade_from : Attempt (Option Link) → Db → (ℕ → Attempt Link × Db) → Attempt Link × Db
upgrade_from (Attempt.failed e) db next = (Attempt.failed e, db)
upgrade_from (Attempt.done none) db next = (Attempt.failed AccountError.account_link_error, db)
upgrade_from (Attempt.done (some old)) db next =
    if is_admin_declared old.source
    then next old.id
    else (Attempt.failed AccountError.account_link_error, db)

unfoldable pub upgrade_admin_declared_to_ssh :
    (user_id physical_account_id : ℕ)
    → (challenge_id signer_fingerprint : Text) → Db
    → Attempt Link × Db
upgrade_admin_declared_to_ssh user_id physical_account_id challenge_id signer_fingerprint db =
    upgrade_from (existing_active_link user_id physical_account_id db) db (λ old_link_id.
      replace_link user_id physical_account_id challenge_id signer_fingerprint old_link_id db)
