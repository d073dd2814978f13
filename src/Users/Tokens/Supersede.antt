-- ===== src/Users/Tokens/Supersede.antt =====
-- A new setup token takes the place of those before it.
use core_lab.Prelude.{
  ℕ, ◌≡◌, ◌<◌, refl, ap, ◌∙◌, Bool, true, false, Option, none, List, [], ◌∷◌, ◌++◌, ==_refl, arith,
  select, select-append,
}
use core_lab.Data.Row.{Text, Instant}
use core_lab.Data.Strings.{text_eq}
use core_lab.Data.Strings.Equal.{text_eq_refl, text_eq_sound}
use core_lab.Users.Tables.{
  Purpose, SetupToken, Outside, Db, ServiceError, Outcome, one_or_none, now,
}
use core_lab.Users.Tokens.{
  is_unused, use_unused, new_token, issue_setup_token, lookup_active_token, live_token, has_hash,
}

unused-none :
    (user_id : ℕ) (at : Instant) (ts : List SetupToken)
    → select (is_unused user_id) (use_unused user_id at ts) ≡ []
unfolding use_unused
unused-none user_id at [] = refl
unused-none user_id at (t ∷ ts) = ground (arith, unused-none user_id at ts)

select-use_unused :
    (hash : Text) (user_id : ℕ) (at : Instant) (ts : List SetupToken)
    → select (has_hash hash) (use_unused user_id at ts)
      ≡ use_unused user_id at (select (has_hash hash) ts)
unfolding use_unused
select-use_unused hash user_id at [] = refl
select-use_unused hash user_id at (t ∷ ts) = ground (arith, select-use_unused hash user_id at ts)

module _ (outside : Outside) (n : ℕ) (purpose : Purpose) (actor : Option ℕ) (db : Db) where
  abbrev new : SetupToken
  new = new_token outside n purpose actor db

  abbrev db' : Db
  db' = (issue_setup_token outside n purpose actor db).1

  abbrev Fresh : Type 0
  Fresh = select (has_hash new.token_hash) db.setup_tokens ≡ []

  hashed :
      (hash : Text)
      → select (has_hash hash) db'.setup_tokens
        ≡ use_unused n (now db) (select (has_hash hash) db.setup_tokens)
          ++ select (has_hash hash) (new ∷ [])
  unfolding issue_setup_token
  hashed hash =
      select-append (has_hash hash) (use_unused n (now db) db.setup_tokens) (new ∷ [])
      ∙ ap (λ ts. ts ++ select (has_hash hash) (new ∷ []))
          (select-use_unused hash n (now db) db.setup_tokens)

  one_unused : select (is_unused n) db'.setup_tokens ≡ new ∷ []
  unfolding issue_setup_token
  one_unused =
      select-append (is_unused n) (use_unused n (now db) db.setup_tokens) (new ∷ [])
      ∙ (ap (λ ts. ts ++ select (is_unused n) (new ∷ [])) (unused-none n (now db) db.setup_tokens)
          ∙ ground (arith, ==_refl n))

  new_live :
      Fresh
      → 0 < outside.setup_token_ttl_hours
      → lookup_active_token outside (issue_setup_token outside n purpose actor db).0.0 db'
        ≡ Outcome.done new
  unfolding lookup_active_token issue_setup_token use_unused
  new_live fresh positive =
      ap (λ ts. live_token (now db) (one_or_none ts))
        (hashed new.token_hash
          ∙ ap (λ ts. use_unused n (now db) ts ++ select (has_hash new.token_hash) (new ∷ []))
              fresh)
      ∙ ground (arith, positive, text_eq_refl new.token_hash)

  apart :
      (hash : Text) (t : SetupToken)
      → Fresh
      → select (has_hash hash) db.setup_tokens ≡ t ∷ []
      → has_hash hash new ≡ false
  apart hash t fresh found = go (text_eq new.token_hash hash) refl
    where
      go : (b : Bool) → text_eq new.token_hash hash ≡ b → text_eq new.token_hash hash ≡ false
      go false e = e
      go true e = ground (
        arith,
        found,
        fresh,
        ap (λ h. select (has_hash h) db.setup_tokens) (text_eq_sound new.token_hash hash e),
      )

  old_used :
      (token : Text) (t : SetupToken)
      → Fresh
      → lookup_active_token outside token db ≡ Outcome.done t
      → t.user_id ≡ n
      → lookup_active_token outside token db' ≡ Outcome.failed ServiceError.token_already_used
  unfolding lookup_active_token use_unused issue_setup_token
  old_used token t fresh live mine =
      ap (λ ts. live_token (now db) (one_or_none ts))
        (hashed (outside.sha256_hex token)
          ∙ ap
              (λ ts.
                use_unused n (now db) ts ++ select (has_hash (outside.sha256_hex token)) (new ∷ []))
              found)
      ∙ ground (arith, mine, was_unused, apart (outside.sha256_hex token) t fresh found)
    where
      go :
          (ts : List SetupToken)
          → live_token (now db) (one_or_none ts) ≡ Outcome.done t
          → (ts ≡ t ∷ []) × (t.used_at ≡ none)
      go [] h = ground (arith, h)
      go (x ∷ []) h = ground (arith, h)
      go (x ∷ y ∷ ts) h = ground (arith, h)

      found : select (has_hash (outside.sha256_hex token)) db.setup_tokens ≡ t ∷ []
      found = (go (select (has_hash (outside.sha256_hex token)) db.setup_tokens) live).0

      was_unused : t.used_at ≡ none
      was_unused = (go (select (has_hash (outside.sha256_hex token)) db.setup_tokens) live).1

-- Where the new token's hash is in no row and tokens last for at least an hour, the user's one unused
-- token after a token is issued is the new one, whose plaintext is found, and a token of the user
-- that was found before is refused as already used.
pub issue-supersedes :
    (outside : Outside) (n : ℕ) (purpose : Purpose) (actor : Option ℕ) (db : Db) (token : Text)
    (t : SetupToken)
    → select (has_hash (new_token outside n purpose actor db).token_hash) db.setup_tokens ≡ []
    → 0 < outside.setup_token_ttl_hours
    → lookup_active_token outside token db ≡ Outcome.done t
    → t.user_id ≡ n
    → (select (is_unused n) (issue_setup_token outside n purpose actor db).1.setup_tokens
        ≡ new_token outside n purpose actor db ∷ [])
      × (lookup_active_token outside
            (issue_setup_token outside n purpose actor db).0.0
            (issue_setup_token outside n purpose actor db).1
          ≡ Outcome.done (new_token outside n purpose actor db))
      × (lookup_active_token outside token (issue_setup_token outside n purpose actor db).1
          ≡ Outcome.failed ServiceError.token_already_used)
issue-supersedes outside n purpose actor db token t fresh positive live mine = (
  one_unused outside n purpose actor db,
  new_live outside n purpose actor db fresh positive,
  old_used outside n purpose actor db token t fresh live mine,
)
