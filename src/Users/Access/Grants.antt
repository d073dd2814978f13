-- ===== src/Users/Access/Grants.antt =====
-- Revoking the grants of a user, one after the other.
use core_lab.Prelude.{
  ℕ, ◌≡◌, ◌≤◌, refl, sym, subst, Bool, true, ◌||◌, not, Option, some, List, [], ◌∷◌, ◌==◌, arith,
  length, select, ==_refl, every, some_of, All,
}
use core_lab.Data.Row.{Instant}
use core_lab.Users.Tables.{ServerAdminGrant, Db, Outcome, and_then, one_or_none, now}
use core_lab.Users.Access.{
  end_grant, update_grant, is_granted, is_users_grant, revoke_granted, revoke_admin, revoke_grants,
}

-- uq_grant_user_server_active, for one user
abbrev pub OnePerServer : (user_id : ℕ) → List ServerAdminGrant → Type 0
OnePerServer u grants = (s : ℕ) → length (select (is_granted s u) grants) ≤ 1

-- Each active grant of the user is on the server of one that is left to revoke.
abbrev pub covered : (user_id : ℕ) → List ServerAdminGrant → List ServerAdminGrant → Bool
covered u left grants =
    every
      (λ r.
        not (is_users_grant u r)
        || some_of (λ (g : ServerAdminGrant). g.server_id == r.server_id) left)
      grants

module _ (u : ℕ) where
  covered-more :
      (g : ServerAdminGrant) (left grants : List ServerAdminGrant)
      → covered u left grants ≡ true
      → covered u (g ∷ left) grants ≡ true
  covered-more g left [] h = refl
  covered-more g left (r ∷ grants) h = ground (arith, h, covered-more g left grants)

  pub covered-select :
      (grants : List ServerAdminGrant) → covered u (select (is_users_grant u) grants) grants ≡ true
  covered-select [] = refl
  covered-select (r ∷ grants) = ground (
    arith,
    ==_refl r.server_id,
    covered-select grants,
    covered-more r (select (is_users_grant u) grants) grants (covered-select grants),
  )

  covered-done :
      (g : ServerAdminGrant) (left grants : List ServerAdminGrant)
      → select (is_granted g.server_id u) grants ≡ []
      → covered u (g ∷ left) grants ≡ true
      → covered u left grants ≡ true
  covered-done g left [] off h = refl
  covered-done g left (r ∷ grants) off h = ground (arith, off, h, covered-done g left grants)

  pub covered-none :
      (grants : List ServerAdminGrant)
      → covered u [] grants ≡ true
      → select (is_users_grant u) grants ≡ []
  covered-none [] h = refl
  covered-none (r ∷ grants) h = ground (arith, h, covered-none grants)

  module _ (n actor : ℕ) (at : Instant) where
    covered-update :
        (left grants : List ServerAdminGrant)
        → covered u left grants ≡ true
        → covered u left (update_grant n (end_grant actor at) grants) ≡ true
    unfolding update_grant
    covered-update left [] h = refl
    covered-update left (r ∷ grants) h = ground (arith, h, covered-update left grants)

    fewer :
        (s : ℕ) (grants : List ServerAdminGrant)
        → length (select (is_granted s u) (update_grant n (end_grant actor at) grants))
          ≤ length (select (is_granted s u) grants)
    unfolding update_grant
    fewer s [] = omega arith
    fewer s (r ∷ grants) = ground (arith, fewer s grants)

    ended :
        (s : ℕ) (grants : List ServerAdminGrant)
        → All (λ g. g.id ≡ n) (select (is_granted s u) grants)
        → select (is_granted s u) (update_grant n (end_grant actor at) grants) ≡ []
    unfolding update_grant
    ended s [] h = refl
    ended s (r ∷ grants) h = ground (arith, h, ended s grants)

pub record Revoked (gs : List ServerAdminGrant) (u : ℕ) (before after : Db) (r : Outcome Bool)
    : Type 0 where
  pub succeeds : r ≡ Outcome.done true
  pub none_left : covered u gs before.grants ≡ true → select (is_users_grant u) after.grants ≡ []
  pub users : after.users ≡ before.users
  pub accounts : after.accounts ≡ before.accounts

pub revoke_grants-Revoked :
    (u actor : ℕ) (gs : List ServerAdminGrant) (db : Db)
    → OnePerServer u db.grants
    → Revoked gs u db (revoke_grants u actor gs db).1 (revoke_grants u actor gs db).0
unfolding revoke_grants revoke_admin
revoke_grants-Revoked u actor [] db one = record {
  succeeds = refl;
  none_left = λ h. covered-none u db.grants h;
  users = refl;
  accounts = refl;
}
revoke_grants-Revoked u actor (g ∷ gs) db one =
    go (select (is_granted g.server_id u) db.grants) refl (one g.server_id)
      (revoke_grants-Revoked u actor gs db one)
      (λ x.
        revoke_grants-Revoked u actor gs (revoke_granted actor db (Outcome.done (some x))).1
          (λ s. omega (arith, one s, fewer u x.id actor (now db) s db.grants)))
  where
    rest : Outcome (Option ServerAdminGrant) × Db → Outcome Bool × Db
    rest r = and_then r (λ revoked db. revoke_grants u actor gs db)

    go :
        (rows : List ServerAdminGrant)
        → select (is_granted g.server_id u) db.grants ≡ rows
        → length rows ≤ 1
        → Revoked gs u db (revoke_grants u actor gs db).1 (revoke_grants u actor gs db).0
        → ((x : ServerAdminGrant)
            → Revoked gs u
                (revoke_granted actor db (Outcome.done (some x))).1
                (revoke_grants u actor gs (revoke_granted actor db (Outcome.done (some x))).1).1
                (revoke_grants u actor gs (revoke_granted actor db (Outcome.done (some x))).1).0)
        → Revoked
            (g ∷ gs)
            u
            db
            (rest (revoke_granted actor db (one_or_none rows))).1
            (rest (revoke_granted actor db (one_or_none rows))).0
    go [] e few same next = record {
      succeeds = same.succeeds;
      none_left = λ h. same.none_left (covered-done u g gs db.grants e h);
      users = same.users;
      accounts = same.accounts;
    }
    go (x ∷ []) e few same next =
        let after = next x in
        record {
          succeeds = after.succeeds;
          none_left = λ h. after.none_left (
              covered-done u g gs (update_grant x.id (end_grant actor (now db)) db.grants)
                (ended u x.id actor (now db) g.server_id db.grants
                  (subst (All (λ y. y.id ≡ x.id)) (sym e) (refl, tt)))
                (covered-update u x.id actor (now db) (g ∷ gs) db.grants h));
          users = after.users;
          accounts = after.accounts;
        }
    go (x ∷ y ∷ rows) e few same next = ground (arith, few)
