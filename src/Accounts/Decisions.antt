-- ===== src/Accounts/Decisions.antt =====
-- The states of a request.
use core_lab.Prelude.{
  ℕ, ◌≡◌, refl, ap, ◌∙◌, subst, Bool, true, false, not, Option, none, some, List, [], ◌∷◌, ◌++◌,
  arith, ◌==◌, if◌then◌else◌,
}
use core_lab.Data.Row.{Text}
use core_lab.Accounts.Tables.{
  PhysicalAccount, SshPublicKey, LinkRequest, RequestStatus, AuditEvent, Notice, PushCall, Reply,
  Db, AccountError, Attempt,
}
use core_lab.Accounts.Requests.{
  is_pending, refuse, find_request, load_request_in_lab, request_on, request_of_account,
  found_in_lab, is_lab, with_request, update_request, decided, settle, deny_request, taken_back,
  withdraw_request,
}
use core_lab.Accounts.Requests.Approve.{
  latest_active_key, entries_unique, push_call, new_entry, add_entry, sent, approve_with,
  approve_replied, approve_request,
}

pub data Decision : Type 0 where
  approve : (decision_note : Option Text) (admin_user_id : ℕ) → Decision
  deny : (decision_note : Option Text) (admin_user_id : ℕ) → Decision
  withdraw : (requester_user_id : ℕ) → Decision

unfoldable pub decide :
    (PushCall → Reply) → Decision → (request_id lab_id : ℕ) → Db → Attempt LinkRequest × Db
decide agent (Decision.approve remark admin) n lab db = approve_request agent n remark admin lab db
decide agent (Decision.deny remark admin) n lab db = deny_request n remark admin lab db
decide agent (Decision.withdraw user) n lab db = withdraw_request n user lab db

-- Refused because of the status, or because it is someone else's request.
abbrev pub is_refused : Attempt LinkRequest → Bool
is_refused (Attempt.failed AccountError.invalid_status_transition) = true
is_refused (Attempt.failed AccountError.not_requester) = true
is_refused _ = false

find-id : (n : ℕ) (rs : List LinkRequest) (r : LinkRequest) → find_request n rs ≡ some r → r.id ≡ n
unfolding find_request
find-id n [] r h = cc
find-id n (x ∷ rs) r h = ground (arith, h, find-id n rs r)

find-update :
    (n : ℕ) (f : LinkRequest → LinkRequest) (same : (x : LinkRequest) → (f x).id ≡ x.id)
    (rs : List LinkRequest) (r : LinkRequest)
    → find_request n rs ≡ some r
    → find_request n (update_request n f rs) ≡ some (f r)
unfolding find_request update_request
find-update n f same [] r h = cc
find-update n f same (x ∷ rs) r h = go (x.id == n) refl h (find-update n f same rs r)
  where
    go :
        (b : Bool)
        → (x.id == n) ≡ b
        → (if b then some x else find_request n rs) ≡ some r
        → (find_request n rs ≡ some r → find_request n (update_request n f rs) ≡ some (f r))
        → find_request n ((if b then f x else x) ∷ update_request n f rs) ≡ some (f r)
    go true e k rest = ground (arith, same x, e, k)
    go false e k rest = ground (arith, e, rest k)

same-request :
    (lab : ℕ) (db : Db) (x r : LinkRequest) (pa : PhysicalAccount) (o : Option PhysicalAccount)
    → request_of_account lab db x o ≡ Attempt.done (r, pa)
    → x ≡ r
same-request lab db x r pa none h = cc
same-request lab db x r pa (some q) h = go (is_lab lab (db.server_labs q.server_id)) h
  where
    first : Attempt (LinkRequest × PhysicalAccount) → LinkRequest
    first (Attempt.done p) = p.0
    first (Attempt.failed e) = x

    go : (b : Bool) → found_in_lab b x q ≡ Attempt.done (r, pa) → x ≡ r
    go true e = ap first e
    go false e = cc

module _ (n lab : ℕ) where
  load-found :
      (db : Db) (r : LinkRequest) (pa : PhysicalAccount)
      → load_request_in_lab n lab db ≡ Attempt.done (r, pa)
      → (find_request n db.requests ≡ some r) × (request_on lab db (some r) ≡ Attempt.done (r, pa))
  unfolding load_request_in_lab
  load-found db r pa h = go (find_request n db.requests) h
    where
      go :
          (o : Option LinkRequest)
          → request_on lab db o ≡ Attempt.done (r, pa)
          → (o ≡ some r) × (request_on lab db (some r) ≡ Attempt.done (r, pa))
      go none e = cc
      go (some x) e =
          let same = same-request lab db x r pa (db.physical_accounts x.physical_account_id) e in
          (ap some same, subst (λ y. request_on lab db (some y) ≡ Attempt.done (r, pa)) same e)

  -- A request that was settled is loaded with what was assigned to it.
  settle-load :
      (f : LinkRequest → LinkRequest) (same : (x : LinkRequest) → (f x).id ≡ x.id)
      (same_account : (x : LinkRequest) → (f x).physical_account_id ≡ x.physical_account_id)
      (event : AuditEvent) (notices : List Notice) (db : Db) (r : LinkRequest)
      (pa : PhysicalAccount)
      → load_request_in_lab n lab db ≡ Attempt.done (r, pa)
      → load_request_in_lab n lab (settle r f event notices db).1 ≡ Attempt.done (f r, pa)
  unfolding load_request_in_lab
  settle-load f same same_account event notices db r pa h =
      let (there, account) = load-found db r pa h in
      ap (request_on lab db) (
        ap (λ m. find_request n (update_request m f db.requests)) (find-id n db.requests r there)
        ∙ find-update n f same db.requests r there)
      ∙ (ap (λ a. request_of_account lab db (f r) (db.physical_accounts a)) (same_account r)
          ∙ relabel account)
    where
      relabel :
          request_on lab db (some r) ≡ Attempt.done (r, pa)
          → request_of_account lab db (f r) (db.physical_accounts r.physical_account_id)
            ≡ Attempt.done (f r, pa)
      relabel e = by_account (db.physical_accounts r.physical_account_id) e
        where
          by_account :
              (o : Option PhysicalAccount)
              → request_of_account lab db r o ≡ Attempt.done (r, pa)
              → request_of_account lab db (f r) o ≡ Attempt.done (f r, pa)
          by_account none k = cc
          by_account (some q) k = by_lab (is_lab lab (db.server_labs q.server_id)) k
            where
              by_lab :
                  (b : Bool)
                  → found_in_lab b r q ≡ Attempt.done (r, pa)
                  → found_in_lab b (f r) q ≡ Attempt.done (f r, pa)
              by_lab true k = ap (λ (a : PhysicalAccount). Attempt.done (f r, a)) (ap second k)
                where
                  second : Attempt (LinkRequest × PhysicalAccount) → PhysicalAccount
                  second (Attempt.done p) = p.1
                  second (Attempt.failed e) = pa
              by_lab false k = cc

  -- A request that is pending no more is refused and left as it is.
  closed-refused :
      (agent : PushCall → Reply) (e : Decision) (db : Db) (r : LinkRequest) (pa : PhysicalAccount)
      → load_request_in_lab n lab db ≡ Attempt.done (r, pa)
      → is_pending r.status ≡ false
      → ((decide agent e n lab db).1 ≡ db) × (is_refused (decide agent e n lab db).0 ≡ true)
  unfolding decide approve_request deny_request withdraw_request
  closed-refused agent (Decision.approve remark admin) db r pa h k = ground (arith, h, k)
  closed-refused agent (Decision.deny remark admin) db r pa h k = ground (arith, h, k)
  closed-refused agent (Decision.withdraw user) db r pa h k = ground (arith, h, k)

  abbrev Closed : Db → Type 0
  Closed db =
      (r : LinkRequest) × (pa : PhysicalAccount) × (load_request_in_lab n lab db
        ≡ Attempt.done (r, pa))
      × (is_pending r.status ≡ false)

  -- An attempt that succeeds closes the request.
  abbrev Closes : Attempt LinkRequest × Db → Type 0
  Closes o = (x : LinkRequest) → o.0 ≡ Attempt.done x → Closed o.1

  refuse-Closes : (e : AccountError) (db : Db) → Closes (refuse e db)
  refuse-Closes e db = λ x h. cc

  with_request-Closes :
      (db : Db) (next : LinkRequest → PhysicalAccount → Attempt LinkRequest × Db)
      → ((r : LinkRequest) (pa : PhysicalAccount)
          → load_request_in_lab n lab db ≡ Attempt.done (r, pa)
          → Closes (next r pa))
      → Closes (with_request (load_request_in_lab n lab db) db next)
  with_request-Closes db next h = go (load_request_in_lab n lab db) (λ r pa e. h r pa e)
    where
      go :
          (o : Attempt (LinkRequest × PhysicalAccount))
          → ((r : LinkRequest) (pa : PhysicalAccount)
              → o ≡ Attempt.done (r, pa)
              → Closes (next r pa))
          → Closes (with_request o db next)
      go (Attempt.failed e) k = refuse-Closes e db
      go (Attempt.done (r, pa)) k = k r pa refl

  decided-Closes :
      (status : RequestStatus) (by : Option ℕ) (remark : Option Text) (event : AuditEvent)
      (notices : List Notice) (db : Db) (r : LinkRequest) (pa : PhysicalAccount)
      → is_pending status ≡ false
      → load_request_in_lab n lab db ≡ Attempt.done (r, pa)
      → Closes (settle r (decided status by remark db.clock) event notices db)
  decided-Closes status by remark event notices db r pa closed h = λ x e. (
    decided status by remark db.clock r,
    pa,
    settle-load (decided status by remark db.clock) (λ y. refl) (λ y. refl) event notices db r pa h,
    closed,
  )

  choose :
      (b : Bool) (x y : Attempt LinkRequest × Db)
      → Closes x
      → Closes y
      → Closes (if b then x else y)
  choose true x y h k = h
  choose false x y h k = k

  approve_with-Closes :
      (agent : PushCall → Reply) (remark : Option Text) (admin : ℕ) (db : Db) (r : LinkRequest)
      (pa : PhysicalAccount) (key : Option SshPublicKey)
      → load_request_in_lab n lab db ≡ Attempt.done (r, pa)
      → Closes (approve_with agent r pa remark admin db key)
  unfolding load_request_in_lab
  approve_with-Closes agent remark admin db r pa none h =
      refuse-Closes AccountError.no_active_ssh_key db
  approve_with-Closes agent remark admin db r pa (some k) h =
      replied-Closes (agent (push_call r pa k false))
    where
      replied-Closes :
          (reply : Reply)
          → Closes (approve_replied reply r pa k remark admin (sent (push_call r pa k false) db))
      replied-Closes Reply.answered =
          choose (entries_unique (db.entries ++ new_entry db r pa k admin ∷ [])) _ _
            (decided-Closes RequestStatus.approved (some admin) remark
              (AuditEvent.request_approved r.id pa.id k.id true)
              (Notice.link_prepared r.requester_user_id r.id true ∷ [])
              (add_entry (new_entry db r pa k admin) (sent (push_call r pa k false) db)) r pa refl
              h)
            (refuse-Closes AccountError.integrity_error
              (add_entry (new_entry db r pa k admin) (sent (push_call r pa k false) db)))
      replied-Closes Reply.unreachable =
          decided-Closes RequestStatus.approved (some admin) remark
            (AuditEvent.request_approved r.id pa.id k.id false)
            (Notice.link_prepared r.requester_user_id r.id false ∷ [])
            (sent (push_call r pa k false) db) r pa refl h
      replied-Closes Reply.unexpected =
          refuse-Closes AccountError.agent_error (sent (push_call r pa k false) db)

  decide-Closes :
      (agent : PushCall → Reply) (d : Decision) (db : Db) → Closes (decide agent d n lab db)
  unfolding decide approve_request deny_request withdraw_request
  decide-Closes agent (Decision.approve remark admin) db = with_request-Closes db _ (λ r pa h.
      choose (is_pending r.status) _ _
        (approve_with-Closes agent remark admin db r pa
          (latest_active_key r.requester_user_id db.keys) h)
        (refuse-Closes AccountError.invalid_status_transition db))
  decide-Closes agent (Decision.deny remark admin) db = with_request-Closes db _ (λ r pa h.
      choose (is_pending r.status) _ _
        (decided-Closes RequestStatus.denied (some admin) remark
          (AuditEvent.request_denied r.id pa.id) (Notice.link_denied r.requester_user_id r.id ∷ [])
          db r pa refl h)
        (refuse-Closes AccountError.invalid_status_transition db))
  decide-Closes agent (Decision.withdraw user) db = with_request-Closes db _ (λ r pa h.
      choose (not (r.requester_user_id == user)) _ _ (refuse-Closes AccountError.not_requester db) (
        choose (is_pending r.status) _ _
          (λ x e. (
            taken_back db.clock r,
            pa,
            settle-load (taken_back db.clock) (λ y. refl) (λ y. refl)
                (AuditEvent.request_withdrawn r.id pa.id) [] db r pa h,
            refl,
          ))
          (refuse-Closes AccountError.invalid_status_transition db)))

  -- After an approval, a denial or a withdrawal that succeeded, each further approval, denial or
  -- withdrawal of the same request, by whomever, is refused and changes nothing.
  pub decide-once :
      (agent : PushCall → Reply) (d e : Decision) (db : Db) (r : LinkRequest)
      → (decide agent d n lab db).0 ≡ Attempt.done r
      → ((decide agent e n lab (decide agent d n lab db).1).1 ≡ (decide agent d n lab db).1)
        × (is_refused (decide agent e n lab (decide agent d n lab db).1).0 ≡ true)
  decide-once agent d e db r h =
      let (s, pa, loaded, closed) = decide-Closes agent d db r h in
      closed-refused agent e (decide agent d n lab db).1 s pa loaded closed
