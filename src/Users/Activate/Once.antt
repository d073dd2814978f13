-- ===== src/Users/Activate/Once.antt =====
-- A token is redeemed once.
use core_lab.Prelude.{
  ℕ, ◌≡◌, refl, ap, ◌∙◌, Option, none, some, List, [], ◌∷◌, arith, select, ==_refl,
}
use core_lab.Data.Row.{Text}
use core_lab.Users.Tables.{
  User, SetupToken, RegistrationInvite, Outside, Db, ServiceError, Outcome, one_or_none, find_user,
  now,
}
use core_lab.Users.Login.{hash_password}
use core_lab.Users.Tokens.{
  use_at, update_invite, lookup_active_token, lookup_active_registration_invite, live_token,
  live_invite, has_hash, invite_has_hash,
}
use core_lab.Users.Manage.{new_user}
use core_lab.Users.Activate.{
  Activation, activate, update_token, redeem, redeem_for, register, complete_registration_invite,
  complete_for, with_profile, profile, activate_with, consumed_at,
}
use core_lab.Users.Activate.Marked.{
  Tables, redeem-tables, register-tables, select-update_token, select-update_invite,
}

module _ (outside : Outside) (token : Text) where
  hash_of : Text
  hash_of = outside.sha256_hex token

  token-found :
      (db : Db) (t : SetupToken)
      → lookup_active_token outside token db ≡ Outcome.done t
      → select (has_hash hash_of) db.setup_tokens ≡ t ∷ []
  unfolding lookup_active_token hash_of
  token-found db t h = go (select (has_hash hash_of) db.setup_tokens) h
    where
      go :
          (ts : List SetupToken)
          → live_token (now db) (one_or_none ts) ≡ Outcome.done t
          → ts ≡ t ∷ []
      go [] h = ground (arith, h)
      go (x ∷ []) h = ground (arith, h)
      go (x ∷ y ∷ ts) h = ground (arith, h)

  token-missing :
      (db : Db)
      → lookup_active_token outside token db ≡ Outcome.failed ServiceError.token_not_found
      → select (has_hash hash_of) db.setup_tokens ≡ []
  unfolding lookup_active_token hash_of
  token-missing db h = go (select (has_hash hash_of) db.setup_tokens) h
    where
      go :
          (ts : List SetupToken)
          → live_token (now db) (one_or_none ts) ≡ Outcome.failed ServiceError.token_not_found
          → ts ≡ []
      go [] h = refl
      go (x ∷ []) h = ground (arith, h)
      go (x ∷ y ∷ ts) h = ground (arith, h)

  invite-found :
      (db : Db) (i : RegistrationInvite)
      → lookup_active_registration_invite outside token db ≡ Outcome.done i
      → select (invite_has_hash hash_of) db.invites ≡ i ∷ []
  unfolding lookup_active_registration_invite hash_of
  invite-found db i h = go (select (invite_has_hash hash_of) db.invites) h
    where
      go :
          (is : List RegistrationInvite)
          → live_invite (now db) (one_or_none is) ≡ Outcome.done i
          → is ≡ i ∷ []
      go [] h = ground (arith, h)
      go (x ∷ []) h = ground (arith, h)
      go (x ∷ y ∷ is) h = ground (arith, h)

  token-used :
      (db db' : Db) (t : SetupToken)
      → lookup_active_token outside token db ≡ Outcome.done t
      → db'.setup_tokens ≡ update_token t.id (use_at (now db)) db.setup_tokens
      → lookup_active_token outside token db' ≡ Outcome.failed ServiceError.token_already_used
  unfolding lookup_active_token hash_of update_token
  token-used db db' t h e =
      ap (λ ts. live_token (now db') (one_or_none (select (has_hash hash_of) ts))) e
      ∙ (ap (λ ts. live_token (now db') (one_or_none ts))
            (select-update_token hash_of t.id (now db) db.setup_tokens
              ∙ ap (update_token t.id (use_at (now db))) (token-found db t h))
          ∙ ground (arith, ==_refl t.id))

  invite-used :
      (db db' : Db) (i : RegistrationInvite) (user_id : ℕ)
      → lookup_active_registration_invite outside token db ≡ Outcome.done i
      → db'.invites ≡ update_invite i.id (consumed_at (now db) user_id) db.invites
      → lookup_active_registration_invite outside token db'
        ≡ Outcome.failed ServiceError.token_already_used
  unfolding lookup_active_registration_invite hash_of update_invite
  invite-used db db' i user_id h e =
      ap (λ is. live_invite (now db') (one_or_none (select (invite_has_hash hash_of) is))) e
      ∙ (ap (λ is. live_invite (now db') (one_or_none is))
            (select-update_invite hash_of i.id (now db) user_id db.invites
              ∙ ap (update_invite i.id (consumed_at (now db) user_id)) (invite-found db i h))
          ∙ ground (arith, ==_refl i.id))

  still-missing :
      (db db' : Db)
      → lookup_active_token outside token db ≡ Outcome.failed ServiceError.token_not_found
      → db'.setup_tokens ≡ db.setup_tokens
      → lookup_active_token outside token db' ≡ Outcome.failed ServiceError.token_not_found
  unfolding lookup_active_token hash_of
  still-missing db db' h e =
      ap (λ ts. live_token (now db') (one_or_none (select (has_hash hash_of) ts))) e
      ∙ ap (λ ts. live_token (now db') (one_or_none ts)) (token-missing db h)

  abbrev Spent : Activation → Db → Type 0
  Spent b db = activate outside token b db ≡ (Outcome.failed ServiceError.token_already_used, db)

  token-Spent :
      (b : Activation) (db : Db)
      → lookup_active_token outside token db ≡ Outcome.failed ServiceError.token_already_used
      → Spent b db
  unfolding activate
  token-Spent b db h =
      ap (activate_with outside b (lookup_active_registration_invite outside token db) db) h

  invite-Spent :
      (b : Activation) (db : Db)
      → lookup_active_token outside token db ≡ Outcome.failed ServiceError.token_not_found
      → lookup_active_registration_invite outside token db
        ≡ Outcome.failed ServiceError.token_already_used
      → Spent b db
  unfolding activate
  invite-Spent b db h k =
      ap (activate_with outside b (lookup_active_registration_invite outside token db) db) h
      ∙ ap (complete_for outside b db) k

-- Where a token, of either kind, was redeemed with success, redeeming it again, with whatever
-- password, profile and key, raises "token already used" and changes nothing.
pub activate-once :
    (outside : Outside) (token : Text) (a b : Activation) (db : Db) (u : User)
    → (activate outside token a db).0 ≡ Outcome.done u
    → activate outside token b (activate outside token a db).1
      ≡ (Outcome.failed ServiceError.token_already_used, (activate outside token a db).1)
unfolding activate complete_registration_invite
activate-once outside token a b db u h = with_token (lookup_active_token outside token db) refl h
  where
    invite : Outcome RegistrationInvite
    invite = lookup_active_registration_invite outside token db

    found :
        (t : SetupToken) (o : Option User)
        → lookup_active_token outside token db ≡ Outcome.done t
        → (redeem_for outside t a o db).0 ≡ Outcome.done u
        → Spent outside token b (redeem_for outside t a o db).1
    found t none e h = ground (arith, h)
    found t (some v) e h = token-Spent outside token b (redeem outside t a v db).1 (
        token-used outside token db (redeem outside t a v db).1 t e
          (ap (λ (x : Tables). x.0) (redeem-tables outside t a v u db h)))

    registered :
        (i : RegistrationInvite) (v : User)
        → lookup_active_token outside token db ≡ Outcome.failed ServiceError.token_not_found
        → invite ≡ Outcome.done i
        → (register outside i a v db).0 ≡ Outcome.done u
        → Spent outside token b (register outside i a v db).1
    registered i v missing e h =
        invite-Spent outside token b (register outside i a v db).1
          (still-missing outside token db (register outside i a v db).1 missing
            (ap (λ (x : Tables). x.0) (register-tables outside i a v u db h)))
          (invite-used outside token db (register outside i a v db).1 i v.id e
            (ap (λ (x : Tables). x.1) (register-tables outside i a v u db h)))

    completed :
        (i : RegistrationInvite) (o : Option (Text × Text × Text))
        → lookup_active_token outside token db ≡ Outcome.failed ServiceError.token_not_found
        → invite ≡ Outcome.done i
        → (with_profile outside i a db o).0 ≡ Outcome.done u
        → Spent outside token b (with_profile outside i a db o).1
    completed i none missing e h = ground (arith, h)
    completed i (some (username, email, display_name)) missing e h =
        registered i
          (new_user db.next_user_id i.lab_id
            (record {
              username = username;
              email = email;
              display_name = display_name;
              role = i.role;
            })
            (some (hash_password outside db.draws a.new_password)) i.created_by_user_id)
          missing e h

    with_invite :
        (r : Outcome RegistrationInvite)
        → invite ≡ r
        → lookup_active_token outside token db ≡ Outcome.failed ServiceError.token_not_found
        → (complete_for outside a db r).0 ≡ Outcome.done u
        → Spent outside token b (complete_for outside a db r).1
    with_invite (Outcome.failed e) same missing h = ground (arith, h)
    with_invite (Outcome.done i) same missing h =
        completed i (profile a.username a.email a.display_name) missing same h

    with_token :
        (r : Outcome SetupToken)
        → lookup_active_token outside token db ≡ r
        → (activate_with outside a invite db r).0 ≡ Outcome.done u
        → Spent outside token b (activate_with outside a invite db r).1
    with_token (Outcome.done t) same h = found t (find_user t.user_id db.users) same h
    with_token (Outcome.failed ServiceError.token_not_found) same h = with_invite invite refl same h
    with_token (Outcome.failed e) same h = ground (arith, h)
