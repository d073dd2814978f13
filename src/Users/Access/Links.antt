-- ===== src/Users/Access/Links.antt =====
-- Revoking the links of a user, one after the other.
use core_lab.Prelude.{
  ℕ, ◌≡◌, refl, sym, subst, Bool, true, false, ◌||◌, not, List, [], ◌∷◌, ◌==◌, arith, select,
  ==_refl, every, some_of, All,
}
use core_lab.Data.Row.{Instant}
use core_lab.Accounts.Tables.{
  Link, RevokeReason, RevokeCall, Reply, is_unexpected, Attempt, active_of, update_link,
}
use core_lab.Accounts.Links.{deactivate}
use core_lab.Accounts.Revoke.{revoke_link}
use core_lab.Accounts.Unique.{Unique, Unique-deactivate}
use core_lab.Accounts.Keeps.{revoke_link-done}
use core_lab.Users.Tables.{Db, Outcome, and_then}
use core_lab.Users.Access.{revoke_users_links, link_outcome}

-- Each active link of the user to the account is one of those that are left to revoke.
abbrev pub covered : (user_id physical_account_id : ℕ) → List Link → List Link → Bool
covered u p left links =
    every (λ r. not (active_of u p r) || some_of (λ (l : Link). l.id == r.id) left) links

module _ (u p : ℕ) where
  covered-more :
      (l : Link) (left links : List Link)
      → covered u p left links ≡ true
      → covered u p (l ∷ left) links ≡ true
  covered-more l left [] h = refl
  covered-more l left (r ∷ links) h = ground (arith, h, covered-more l left links)

  pub covered-select :
      (q : Link → Bool) (links : List Link)
      → All (λ r. active_of u p r ≡ true → q r ≡ true) links
      → covered u p (select q links) links ≡ true
  covered-select q [] h = refl
  covered-select q (r ∷ links) h = ground (
    arith,
    h.0,
    ==_refl r.id,
    covered-select q links h.1,
    covered-more r (select q links) links (covered-select q links h.1),
  )

  covered-step :
      (actor : ℕ) (now : Instant) (l : Link) (left links : List Link)
      → covered u p (l ∷ left) links ≡ true
      → covered u p left (update_link l.id (deactivate actor RevokeReason.user_disabled now) links)
        ≡ true
  unfolding deactivate
  covered-step actor now l left [] h = refl
  covered-step actor now l left (r ∷ links) h =
      ground (arith, h, covered-step actor now l left links)

  pub covered-none :
      (links : List Link) → covered u p [] links ≡ true → select (active_of u p) links ≡ []
  covered-none [] h = refl
  covered-none (r ∷ links) h = ground (arith, h, covered-none links)

-- What holds of the session while the links are revoked.
pub record Revoked (ls : List Link) (u : ℕ) (before after : Db) (r : Outcome Bool) : Type 0 where
  pub succeeds : r ≡ Outcome.done true
  pub none_left :
      (p : ℕ)
      → covered u p ls before.accounts.links ≡ true
      → select (active_of u p) after.accounts.links ≡ []
  pub users : after.users ≡ before.users
  pub grants : after.grants ≡ before.grants

pub revoke_users_links-Revoked :
    (agent : RevokeCall → Reply) (u actor : ℕ) (ls : List Link) (db : Db)
    → ((c : RevokeCall) → is_unexpected (agent c) ≡ false)
    → Unique db.accounts.links
    → All (λ l. l.is_active ≡ true) ls
    → Revoked ls u db
        (revoke_users_links agent actor ls db).1
        (revoke_users_links agent actor ls db).0
unfolding revoke_users_links
revoke_users_links-Revoked agent u actor [] db handled unique active = record {
  succeeds = refl;
  none_left = λ p h. covered-none u p db.accounts.links h;
  users = refl;
  grants = refl;
}
revoke_users_links-Revoked agent u actor (l ∷ ls) db handled unique active =
    go (revoke_link agent l actor RevokeReason.user_disabled true db.accounts).0 ended (
      revoke_users_links-Revoked agent u actor ls next handled
        (subst Unique (sym links) (
          Unique-deactivate actor RevokeReason.user_disabled db.accounts.clock l.id
            db.accounts.links unique))
        active.1)
  where
    next : Db
    next = record db {
      accounts = (revoke_link agent l actor RevokeReason.user_disabled true db.accounts).1;
    }

    ended :
        (revoke_link agent l actor RevokeReason.user_disabled true db.accounts).0
        ≡ Attempt.done (deactivate actor RevokeReason.user_disabled db.accounts.clock l)
    ended =
        (revoke_link-done agent l actor RevokeReason.user_disabled db.accounts true handled active.0
          unique).0

    links :
        next.accounts.links
        ≡ update_link l.id
            (deactivate actor RevokeReason.user_disabled db.accounts.clock)
            db.accounts.links
    links =
        (revoke_link-done agent l actor RevokeReason.user_disabled db.accounts true handled active.0
          unique).1

    go :
        (r : Attempt Link)
        → r ≡ Attempt.done (deactivate actor RevokeReason.user_disabled db.accounts.clock l)
        → Revoked ls u next
            (revoke_users_links agent actor ls next).1
            (revoke_users_links agent actor ls next).0
        → Revoked
            (l ∷ ls)
            u
            db
            (and_then (link_outcome r, next) (λ ok db. revoke_users_links agent actor ls db)).1
            (and_then (link_outcome r, next) (λ ok db. revoke_users_links agent actor ls db)).0
    go (Attempt.failed e) h rest = ground (arith, h)
    go (Attempt.done x) h rest = record {
      succeeds = rest.succeeds;
      none_left = λ p k. rest.none_left p (
          subst (λ ls'. covered u p ls ls' ≡ true) (sym links)
            (covered-step u p actor db.accounts.clock l ls db.accounts.links k));
      users = rest.users;
      grants = rest.grants;
    }
