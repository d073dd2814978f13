-- ===== src/Accounts/Pushed.antt =====
-- Pushing the key of a request again.
use core_lab.Prelude.{
  ℕ, ◌≡◌, refl, sym, ap, ◌∙◌, subst, Bool, true, false, Option, none, some, List, [], ◌∷◌, ◌++◌,
  arith, select, select-append, ◌==◌, ==_refl, if◌then◌else◌,
}
use core_lab.Accounts.Tables.{
  PhysicalAccount, SshPublicKey, AuthorizedKeyEntry, LinkRequest, PushCall, Reply, Db, AccountError,
  Attempt,
}
use core_lab.Accounts.Requests.{is_approved, refuse, load_request_in_lab}
use core_lab.Accounts.Requests.Approve.{latest_active_key, is_entry, push_call, new_entry, sent}
use core_lab.Accounts.Requests.Retry.{
  first_entry, find_key_entry, renewed, update_entry, push_again, retry_replied, skipped, retry_on,
  retry_key, retry_request, retry_push_for_request,
}

-- The entry of an account and a key, after one is added or renewed.
module _ (p k : ℕ) where
  found-one :
      (entries : List AuthorizedKeyEntry) (o : Option AuthorizedKeyEntry)
      → first_entry entries ≡ Attempt.done o
      → entries ≡ elim o [ none ↦ [] | some e ↦ e ∷ [] ]
  found-one [] none h = refl
  found-one [] (some e) h = cc
  found-one (e ∷ []) none h = cc
  found-one (e ∷ []) (some f) h = ground (arith, h)
  found-one (e ∷ f ∷ entries) o h = cc

  update_entry-none :
      (n : ℕ) (f : AuthorizedKeyEntry → AuthorizedKeyEntry)
      (same : (x : AuthorizedKeyEntry) → is_entry p k (f x) ≡ is_entry p k x)
      (entries : List AuthorizedKeyEntry)
      → select (is_entry p k) entries ≡ []
      → select (is_entry p k) (update_entry n f entries) ≡ []
  unfolding update_entry
  update_entry-none n f same [] h = refl
  update_entry-none n f same (x ∷ entries) h =
      ground (arith, same x, h, update_entry-none n f same entries)

  update_entry-one :
      (f : AuthorizedKeyEntry → AuthorizedKeyEntry)
      (same : (x : AuthorizedKeyEntry) → is_entry p k (f x) ≡ is_entry p k x)
      (e : AuthorizedKeyEntry) (entries : List AuthorizedKeyEntry)
      → select (is_entry p k) entries ≡ e ∷ []
      → select (is_entry p k) (update_entry e.id f entries) ≡ f e ∷ []
  unfolding update_entry
  update_entry-one f same e [] h = cc
  update_entry-one f same e (x ∷ entries) h =
      go (is_entry p k x) refl h (update_entry-one f same e entries)
    where
      head : List AuthorizedKeyEntry → AuthorizedKeyEntry
      head [] = e
      head (y ∷ ys) = y

      rest_of : List AuthorizedKeyEntry → List AuthorizedKeyEntry
      rest_of [] = []
      rest_of (y ∷ ys) = ys

      go :
          (b : Bool)
          → is_entry p k x ≡ b
          → (if b then x ∷ select (is_entry p k) entries else select (is_entry p k) entries)
            ≡ e ∷ []
          → (select (is_entry p k) entries ≡ e ∷ []
              → select (is_entry p k) (update_entry e.id f entries) ≡ f e ∷ [])
          → select (is_entry p k) ((if x.id == e.id then f x else x) ∷ update_entry e.id f entries)
            ≡ f e ∷ []
      go true i j rest =
          subst
            (λ y.
              select (is_entry p k)
                ((if x.id == y.id then f x else x) ∷ update_entry y.id f entries)
              ≡ f y ∷ [])
            (ap head j)
            (ground (
              arith,
              ==_refl x.id,
              same x,
              i,
              update_entry-none x.id f same entries (ap rest_of j),
            ))
      go false i j rest = ground (arith, same x, i, rest j)

-- A retry reports the key as pushed.
abbrev pub is_pushed : Attempt (LinkRequest × Bool) → Bool
is_pushed (Attempt.failed e) = false
is_pushed (Attempt.done (r, ok)) = ok

-- A key that is recorded as pushed.
module _ (r : LinkRequest) (pa : PhysicalAccount) (k : SshPublicKey) where
  abbrev Recorded : Db → Type 0
  Recorded db =
      (e : AuthorizedKeyEntry) × (find_key_entry pa.id k.id db ≡ Attempt.done (some e))
      × (e.is_active ≡ true)

  -- What a retry that reports the key as pushed leaves.
  abbrev Records : Attempt (LinkRequest × Bool) × Db → Type 0
  Records o = is_pushed o.0 ≡ true → Recorded o.1

  push_again-Records :
      (agent : PushCall → Reply) (admin : ℕ) (o : Option AuthorizedKeyEntry) (db : Db)
      → find_key_entry pa.id k.id db ≡ Attempt.done o
      → Records (push_again agent r pa k admin o db)
  unfolding find_key_entry
  push_again-Records agent admin o db h = go (agent (push_call r pa k true)) o h
    where
      added :
          select (is_entry pa.id k.id) db.entries ≡ []
          → select (is_entry pa.id k.id) (db.entries ++ new_entry db r pa k admin ∷ [])
            ≡ new_entry db r pa k admin ∷ []
      added none_yet = ground (
        arith,
        none_yet,
        select-append (is_entry pa.id k.id) db.entries (new_entry db r pa k admin ∷ []),
        ==_refl pa.id,
        ==_refl k.id,
      )

      go :
          (reply : Reply) (o : Option AuthorizedKeyEntry)
          → find_key_entry pa.id k.id db ≡ Attempt.done o
          → Records (retry_replied reply r pa k admin o (sent (push_call r pa k true) db))
      go Reply.unreachable o h e = cc
      go Reply.unexpected o h e = cc
      go Reply.answered none h e = (
        new_entry db r pa k admin,
        ap first_entry
            (added (found-one pa.id k.id (select (is_entry pa.id k.id) db.entries) none h)),
        refl,
      )
      go Reply.answered (some x) h e = (
        renewed r admin db.clock x,
        ap first_entry (
            update_entry-one pa.id k.id (renewed r admin db.clock) (λ y. refl) x db.entries
              (found-one pa.id k.id (select (is_entry pa.id k.id) db.entries) (some x) h)),
        refl,
      )

  retry_on-Records :
      (agent : PushCall → Reply) (admin : ℕ) (db : Db)
      → Records (retry_on agent r pa k admin db (find_key_entry pa.id k.id db))
  unfolding find_key_entry
  retry_on-Records agent admin db = go (find_key_entry pa.id k.id db) refl
    where
      active :
          (e : AuthorizedKeyEntry) (b : Bool)
          → e.is_active ≡ b
          → find_key_entry pa.id k.id db ≡ Attempt.done (some e)
          → Records (if b then skipped r pa k db else push_again agent r pa k admin (some e) db)
      active e true i h j = (e, h, i)
      active e false i h j = push_again-Records agent admin (some e) db h j

      go :
          (o : Attempt (Option AuthorizedKeyEntry))
          → find_key_entry pa.id k.id db ≡ o
          → Records (retry_on agent r pa k admin db o)
      go (Attempt.failed x) h = λ j. cc
      go (Attempt.done none) h = push_again-Records agent admin none db h
      go (Attempt.done (some e)) h = active e e.is_active refl h

  -- What a retry writes is neither requests nor keys.
  abbrev Same : (n lab : ℕ) → Db → Attempt (LinkRequest × Bool) × Db → Type 0
  Same n lab db o =
      (load_request_in_lab n lab o.1 ≡ load_request_in_lab n lab db) × (o.1.keys ≡ db.keys)

  retry_on-Same :
      (agent : PushCall → Reply) (admin n lab : ℕ) (db : Db)
      (o : Attempt (Option AuthorizedKeyEntry))
      → Same n lab db (retry_on agent r pa k admin db o)
  unfolding load_request_in_lab
  retry_on-Same agent admin n lab db o = go o
    where
      again :
          (reply : Reply) (o : Option AuthorizedKeyEntry)
          → Same n lab db (retry_replied reply r pa k admin o (sent (push_call r pa k true) db))
      again Reply.answered none = (refl, refl)
      again Reply.answered (some e) = (refl, refl)
      again Reply.unreachable o = (refl, refl)
      again Reply.unexpected o = (refl, refl)

      active :
          (e : AuthorizedKeyEntry) (b : Bool)
          → Same n lab db
              (if b then skipped r pa k db else push_again agent r pa k admin (some e) db)
      active e true = (refl, refl)
      active e false = again (agent (push_call r pa k true)) (some e)

      go :
          (o : Attempt (Option AuthorizedKeyEntry))
          → Same n lab db (retry_on agent r pa k admin db o)
      go (Attempt.failed x) = (refl, refl)
      go (Attempt.done none) = again (agent (push_call r pa k true)) none
      go (Attempt.done (some e)) = active e e.is_active

  -- Where it is recorded, another retry is skipped.
  retry_push_for_request-skipped :
      (agent : PushCall → Reply) (admin n lab : ℕ) (db : Db)
      → load_request_in_lab n lab db ≡ Attempt.done (r, pa)
      → is_approved r.status ≡ true
      → latest_active_key r.requester_user_id db.keys ≡ some k
      → Recorded db
      → retry_push_for_request agent n admin lab db ≡ skipped r pa k db
  unfolding retry_push_for_request
  retry_push_for_request-skipped agent admin n lab db loaded approved key (e, found, active) =
      ground (arith, loaded, approved, key, found, active)

abbrev Again : (agent : PushCall → Reply) → (admin n lab : ℕ) → Db → Type 0
Again agent admin n lab db =
    (is_pushed (retry_push_for_request agent n admin lab db).0 ≡ true)
    × ((retry_push_for_request agent n admin lab db).1.push_calls ≡ db.push_calls)
    × ((retry_push_for_request agent n admin lab db).1.entries ≡ db.entries)

-- After a retry that reports the key as pushed, another retry by whomever reports the same, without
-- calling the agent and without changing the entries.
pub retry-again :
    (first second : PushCall → Reply) (admin other n lab : ℕ) (db : Db)
    → is_pushed (retry_push_for_request first n admin lab db).0 ≡ true
    → (is_pushed
          (retry_push_for_request second n other lab
            (retry_push_for_request first n admin lab db).1).0
        ≡ true)
      × ((retry_push_for_request second n other lab
            (retry_push_for_request first n admin lab db).1).1.push_calls
          ≡ (retry_push_for_request first n admin lab db).1.push_calls)
      × ((retry_push_for_request second n other lab
            (retry_push_for_request first n admin lab db).1).1.entries
          ≡ (retry_push_for_request first n admin lab db).1.entries)
unfolding retry_push_for_request
retry-again first second admin other n lab db h = by_request (load_request_in_lab n lab db) refl h
  where
    Goal : Attempt (LinkRequest × Bool) × Db → Type 0
    Goal o = is_pushed o.0 ≡ true → Again second other n lab o.1

    by_key :
        (r : LinkRequest) (pa : PhysicalAccount) (o : Option SshPublicKey)
        → load_request_in_lab n lab db ≡ Attempt.done (r, pa)
        → is_approved r.status ≡ true
        → latest_active_key r.requester_user_id db.keys ≡ o
        → Goal (retry_key first r pa admin db o)
    by_key r pa none loaded approved key h = cc
    by_key r pa (some k) loaded approved key h =
        let (same_request, same_keys) =
          retry_on-Same r pa k first admin n lab db (find_key_entry pa.id k.id db) in
        subst
          (λ (o : Attempt (LinkRequest × Bool) × Db).
            (is_pushed o.0 ≡ true)
            × (o.1.push_calls
                ≡ (retry_on first r pa k admin db (find_key_entry pa.id k.id db)).1.push_calls)
            × (o.1.entries
                ≡ (retry_on first r pa k admin db (find_key_entry pa.id k.id db)).1.entries))
          (sym (
            retry_push_for_request-skipped r pa k second other n lab
              (retry_on first r pa k admin db (find_key_entry pa.id k.id db)).1
              (same_request ∙ loaded) approved
              (ap (latest_active_key r.requester_user_id) same_keys ∙ key)
              (retry_on-Records r pa k first admin db h)))
          (refl, refl, refl)

    by_status :
        (r : LinkRequest) (pa : PhysicalAccount) (b : Bool)
        → is_approved r.status ≡ b
        → load_request_in_lab n lab db ≡ Attempt.done (r, pa)
        → Goal (
            if b
            then retry_key first r pa admin db (latest_active_key r.requester_user_id db.keys)
            else refuse AccountError.invalid_status_transition db)
    by_status r pa false approved loaded h = cc
    by_status r pa true approved loaded h =
        by_key r pa (latest_active_key r.requester_user_id db.keys) loaded approved refl h

    by_request :
        (o : Attempt (LinkRequest × PhysicalAccount))
        → load_request_in_lab n lab db ≡ o
        → Goal (retry_request first admin db o)
    by_request (Attempt.failed e) loaded h = cc
    by_request (Attempt.done (r, pa)) loaded h = by_status r pa (is_approved r.status) refl loaded h
