-- ===== src/Accounts/Removed.antt =====
-- The entries of the keys that were pushed for a link, after its revocation.
use core_lab.Prelude.{
  ℕ, ◌≡◌, refl, sym, subst, Bool, true, false, Option, none, some, ap, ◌∙◌, List, [], ◌∷◌, arith,
  select, ◌==◌, ==_refl, All, some_of, if◌then◌else◌, Bool-cases, inl, inr,
}
use core_lab.Accounts.Tables.{
  RevokeReason, Link, PhysicalAccount, SshPublicKey, AuthorizedKeyEntry, KeyOutcome, Db, RevokeCall,
  Reply, is_unexpected, Attempt,
}
use core_lab.Accounts.Links.{deactivate}
use core_lab.Accounts.Revoke.{
  find_key, revoke_key_of, revoke_keys, remove_entry, pushed_for, revoke_link, replied, called,
  call_of, then_key, end_revoke, revoked_row, revoke_keys_if,
}
use core_lab.Accounts.Unique.{Unique}
use core_lab.Accounts.Revoke.Ends.{revoke_keys-Ends}
use core_lab.Accounts.Keeps.{revoke_link-done, revoke_link-flushed}

-- Every entry that is still active for the pair has its primary key among those of some entries.
module _ (p u : ℕ) where
  abbrev among : List AuthorizedKeyEntry → AuthorizedKeyEntry → Bool
  among es x = some_of (λ y. y.id == x.id) es

  abbrev Listed : (es entries : List AuthorizedKeyEntry) → Type 0
  Listed es = All (λ x. pushed_for p u x ≡ true → among es x ≡ true)

  remove-Listed :
      (actor now : ℕ) (e : AuthorizedKeyEntry) (es entries : List AuthorizedKeyEntry)
      → Listed (e ∷ es) entries
      → Listed es (remove_entry actor now e.id entries)
  unfolding remove_entry
  remove-Listed actor now e es [] h = tt
  remove-Listed actor now e es (x ∷ entries) h =
      (head (x.id == e.id) refl h.0, remove-Listed actor now e es entries h.1)
    where
      head :
          (b : Bool)
          → (x.id == e.id) ≡ b
          → (pushed_for p u x ≡ true → among (e ∷ es) x ≡ true)
          → pushed_for p u (
              if b
              then record x {
                is_active = false;
                removed_at = some now;
                removed_by_user_id = some actor;
              }
              else x)
            ≡ true
          → among es (
              if b
              then record x {
                is_active = false;
                removed_at = some now;
                removed_by_user_id = some actor;
              }
              else x)
            ≡ true
      head true i k pushed = ground (arith, pushed)
      head false i k pushed = ground (arith, i, k pushed)

  self-Listed :
      (xs ys : List AuthorizedKeyEntry)
      → ((z : AuthorizedKeyEntry) → among (select (pushed_for p u) xs) z ≡ true → among ys z ≡ true)
      → Listed ys xs
  self-Listed [] ys h = tt
  self-Listed (x ∷ xs) ys h = (
    λ pushed. h x (ground (arith, pushed, ==_refl x.id)),
    self-Listed xs ys (λ z k. h z (ground (arith, k))),
  )

  Listed-none :
      (entries : List AuthorizedKeyEntry) → Listed [] entries → select (pushed_for p u) entries ≡ []
  Listed-none [] h = refl
  Listed-none (x ∷ entries) h = elim (Bool-cases (pushed_for p u x)) [
    | inl pushed ↦ cc (h.0 pushed)
    | inr other ↦ ground (arith, other, Listed-none entries h.1)
  ]

  -- The keys of the entries are in the table.
  abbrev Known : List SshPublicKey → List AuthorizedKeyEntry → Type 0
  Known keys = All (λ e. (key : SshPublicKey) × (find_key e.ssh_public_key_id keys ≡ some key))

  -- What is asked of the rest of the loop, where a reply is handled.
  step-Listed :
      (reply : Reply) (actor : ℕ) (e : AuthorizedKeyEntry) (key : SshPublicKey)
      (acc : List KeyOutcome × Db) (next : List KeyOutcome × Db → Option (List KeyOutcome) × Db)
      → is_unexpected reply ≡ false
      → ((outcomes : List KeyOutcome)
          → Listed []
              (next (
                outcomes,
                record acc.1 { entries = remove_entry actor acc.1.clock e.id acc.1.entries },
              )).1.entries)
      → Listed [] (then_key (replied reply actor e key acc) next).1.entries
  step-Listed Reply.answered actor e key acc next h k = k _
  step-Listed Reply.unreachable actor e key acc next h k = k _
  step-Listed Reply.unexpected actor e key acc next h k = cc

  revoke_keys-Listed :
      (agent : RevokeCall → Reply) (pa : PhysicalAccount) (actor : ℕ) (es : List AuthorizedKeyEntry)
      (acc : List KeyOutcome × Db)
      → ((c : RevokeCall) → is_unexpected (agent c) ≡ false)
      → Known acc.1.keys es
      → Listed es acc.1.entries
      → Listed [] (revoke_keys agent pa actor es acc).1.entries
  unfolding revoke_keys
  revoke_keys-Listed agent pa actor [] acc handled known h = h
  revoke_keys-Listed agent pa actor (e ∷ es) acc handled known h =
      subst
        (λ o.
          Listed []
            (then_key (revoke_key_of agent pa actor e o acc)
              (λ acc. revoke_keys agent pa actor es acc)).1.entries)
        (sym known.0.1)
        (step-Listed (agent (call_of pa known.0.0)) actor e known.0.0
          (acc.0, called (call_of pa known.0.0) acc.1) (λ acc. revoke_keys agent pa actor es acc)
          (handled (call_of pa known.0.0))
          (λ outcomes.
            revoke_keys-Listed agent pa actor es
              (
                outcomes,
                record (called (call_of pa known.0.0) acc.1) {
                  entries = remove_entry actor acc.1.clock e.id acc.1.entries;
                },
              )
              handled known.1 (remove-Listed actor acc.1.clock e es acc.1.entries h)))

-- Where the table has at most one active link for each user and account, the keys that were pushed
-- for a link's account and user are all in theirs, and every call of the agent has a reply, finds it
-- offline or times out, revoking the link together with its keys succeeds and marks every one of
-- them as removed, those that the agent did not answer for too.
pub revoke-entries :
    (agent : RevokeCall → Reply) (l : Link) (pa : PhysicalAccount) (actor : ℕ)
    (reason : RevokeReason) (db : Db)
    → ((c : RevokeCall) → is_unexpected (agent c) ≡ false)
    → Unique db.links
    → l.is_active ≡ true
    → db.physical_accounts l.physical_account_id ≡ some pa
    → Known pa.id l.user_id db.keys (select (pushed_for pa.id l.user_id) db.entries)
    → ((revoke_link agent l actor reason true db).0
        ≡ Attempt.done (deactivate actor reason db.clock l))
      × (select (pushed_for pa.id l.user_id) (revoke_link agent l actor reason true db).1.entries
          ≡ [])
revoke-entries agent l pa actor reason db handled unique active account known = (
  (revoke_link-done agent l actor reason db true handled active unique).0,
  Listed-none pa.id l.user_id (revoke_link agent l actor reason true db).1.entries (
      subst (Listed pa.id l.user_id []) (sym after) (
        revoke_keys-Listed pa.id l.user_id agent pa actor
          (select (pushed_for pa.id l.user_id) db.entries) ([], off) handled known
          (self-Listed pa.id l.user_id db.entries (select (pushed_for pa.id l.user_id) db.entries)
            (λ z k. k)))),
)
  where
    off : Db
    off = revoked_row l actor reason db

    ended :
        (r : Option (List KeyOutcome) × Db) (outcomes : List KeyOutcome)
        → r.0 ≡ some outcomes
        → (end_revoke l actor reason true db r).1.entries ≡ r.1.entries
    ended (none, after) outcomes h = cc
    ended (some o, after) outcomes h = refl

    after :
        (revoke_link agent l actor reason true db).1.entries
        ≡ (revoke_keys agent pa actor
            (select (pushed_for pa.id l.user_id) db.entries)
            ([], off)).1.entries
    after =
        ap (λ (x : Attempt Link × Db). x.1.entries)
          (revoke_link-flushed agent l actor reason db true active unique)
        ∙ (ap
              (λ o.
                (end_revoke l actor reason true db
                  (revoke_keys_if true agent l.user_id actor o off)).1.entries)
              account
            ∙ ended
                (revoke_keys agent pa actor (select (pushed_for pa.id l.user_id) db.entries)
                  ([], off))
                (revoke_keys-Ends agent pa actor handled
                  (select (pushed_for pa.id l.user_id) db.entries) ([], off)).0
                (revoke_keys-Ends agent pa actor handled
                  (select (pushed_for pa.id l.user_id) db.entries) ([], off)).1)
