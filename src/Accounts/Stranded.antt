-- ===== src/Accounts/Stranded.antt =====
-- Approving a request whose key has an entry for the account.
use core_lab.Prelude.{
  ℕ, ◌≤◌, ◌≡◌, refl, sym, subst, true, false, Option, some, List, [], ◌∷◌, ◌++◌, arith, length,
  length-append, select, select-append, some_of, ==_refl, leb, every-append,
}
use core_lab.Data.Row.{Text}
use core_lab.Accounts.Tables.{
  PhysicalAccount, SshPublicKey, AuthorizedKeyEntry, LinkRequest, PushCall, Reply, Db, AccountError,
  Attempt,
}
use core_lab.Accounts.Requests.{is_pending, refuse, load_request_in_lab}
use core_lab.Accounts.Requests.Approve.{
  latest_active_key, is_entry, entries_unique, push_call, new_entry, add_entry, sent,
  approve_request,
}

-- The database refuses a second entry for an account and a key.
second-entry :
    (p k : ℕ) (entries : List AuthorizedKeyEntry) (e : AuthorizedKeyEntry)
    → some_of (is_entry p k) entries ≡ true
    → 1 ≤ length (select (is_entry p k) entries)
second-entry p k [] e h = cc
second-entry p k (x ∷ entries) e h = ground (arith, second-entry p k entries e)

refused-entry :
    (entries : List AuthorizedKeyEntry) (e : AuthorizedKeyEntry)
    → some_of (is_entry e.physical_account_id e.ssh_public_key_id) entries ≡ true
    → entries_unique (entries ++ e ∷ []) ≡ false
refused-entry entries e h = ground (
  arith,
  every-append
      (λ x.
        leb
          (length (select (is_entry x.physical_account_id x.ssh_public_key_id) (entries ++ e ∷ [])))
          1)
      entries (e ∷ []),
  select-append (is_entry e.physical_account_id e.ssh_public_key_id) entries (e ∷ []),
  length-append (select (is_entry e.physical_account_id e.ssh_public_key_id) entries) (e ∷ []),
  second-entry e.physical_account_id e.ssh_public_key_id entries e h,
  ==_refl e.physical_account_id,
  ==_refl e.ssh_public_key_id,
)

-- Where the agent answers the push, and the requester's latest key has an entry for the account,
-- removed since or not, a pending request cannot be approved: the key is pushed again, and then the
-- approval fails at the database.
pub approve-stranded :
    (agent : PushCall → Reply) (n : ℕ) (decision_note : Option Text) (admin lab : ℕ) (db : Db)
    (r : LinkRequest) (pa : PhysicalAccount) (k : SshPublicKey)
    → load_request_in_lab n lab db ≡ Attempt.done (r, pa)
    → is_pending r.status ≡ true
    → latest_active_key r.requester_user_id db.keys ≡ some k
    → some_of (is_entry pa.id k.id) db.entries ≡ true
    → agent (push_call r pa k false) ≡ Reply.answered
    → ((approve_request agent n decision_note admin lab db).0
        ≡ Attempt.failed AccountError.integrity_error)
      × ((approve_request agent n decision_note admin lab db).1.push_calls
          ≡ db.push_calls ++ push_call r pa k false ∷ [])
unfolding approve_request
approve-stranded agent n decision_note admin lab db r pa k loaded pending key entry answers =
    subst
      (λ o.
        (o.0 ≡ Attempt.failed AccountError.integrity_error)
        × (o.1.push_calls ≡ db.push_calls ++ push_call r pa k false ∷ []))
      (sym ended) (refl, refl)
  where
    wrong : entries_unique (db.entries ++ new_entry db r pa k admin ∷ []) ≡ false
    wrong = refused-entry db.entries (new_entry db r pa k admin) entry

    ended :
        approve_request agent n decision_note admin lab db
        ≡ refuse AccountError.integrity_error
            (add_entry (new_entry db r pa k admin) (sent (push_call r pa k false) db))
    ended = ground (arith, loaded, pending, key, answers, wrong)
