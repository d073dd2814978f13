-- ===== src/Tests/Accounts.antt =====
-- The theorems on links and requests, at one user and one account.
use core_lab.Prelude.{
  arith, ◌≡◌, refl, true, false, none, some, List, [], ◌∷◌, ◌++◌, ◌==◌, select, if◌then◌else◌,
}
use core_lab.Data.Row.{LinkSource}
use core_lab.Session.Write.{codes}
use core_lab.Accounts.Tables.{
  RevokeReason, ProofEvidence, Link, PhysicalAccount, SshPublicKey, AuthorizedKeyEntry, LinkRequest,
  RequestStatus, PushCall, RevokeCall, Reply, Db, AccountError, Attempt,
}
use core_lab.Accounts.Links.{
  existing_active_link, get_active_link_for_actas, deactivate, upgrade_admin_declared_to_ssh,
}
use core_lab.Accounts.Revoke.{find_key, pushed_for, revoke_link}
use core_lab.Accounts.Unique.{Unique}
use core_lab.Accounts.Keeps.{Operation, run, meets_database_error, run-Unique}
use core_lab.Accounts.Revoked.{revoke-actas, upgrade-actas}
use core_lab.Accounts.Removed.{revoke-entries}
use core_lab.Accounts.Requests.{find_request, load_request_in_lab, deny_request}
use core_lab.Accounts.Requests.Approve.{latest_active_key, push_call, approve_request}
use core_lab.Accounts.Requests.Retry.{find_key_entry, retry_push_for_request}
use core_lab.Accounts.Decisions.{Decision, decide, is_refused, decide-once}
use core_lab.Accounts.Pushed.{is_pushed, retry-again}
use core_lab.Accounts.Stranded.{approve-stranded}

abbrev link : Link
link = record {
  id = 3;
  user_id = 9;
  physical_account_id = 6;
  source = LinkSource.admin_declared;
  proof_evidence = ProofEvidence.pam 0;
  established_by_user_id = 1;
  is_active = true;
  revoked_at = none;
  revoked_by_user_id = none;
  revoke_reason = none;
}

abbrev account : PhysicalAccount
account = record { id = 6; server_id = 2; linux_username = codes "bob"; is_active = true }

abbrev key : SshPublicKey
key = record {
  id = 5;
  user_id = 9;
  public_key = codes "ssh-rsa A";
  fingerprint_sha256 = codes "A";
  key_type = codes "ssh-rsa";
  comment = none;
  is_active = true;
  disabled_at = none;
}

abbrev entry : AuthorizedKeyEntry
entry = record {
  id = 8;
  physical_account_id = 6;
  ssh_public_key_id = 5;
  pushed_by_user_id = 1;
  pushed_for_user_id = 9;
  pushed_at = 0;
  is_active = true;
  removed_at = none;
  removed_by_user_id = none;
}

abbrev asked : RequestStatus → LinkRequest
asked status = record {
  id = 4;
  requester_user_id = 9;
  physical_account_id = 6;
  status = status;
  request_note = none;
  decided_by_user_id = none;
  decided_at = none;
  decision_note = none;
}

-- The user with the link, the pushed key and a request in the given state.
abbrev pub db_with : RequestStatus → Db
db_with status = record {
  links = link ∷ [];
  next_link_id = 10;
  physical_accounts = λ n. if n == 6 then some account else none;
  server_labs = λ n. if n == 2 then some 7 else none;
  keys = key ∷ [];
  entries = entry ∷ [];
  next_entry_id = 20;
  requests = asked status ∷ [];
  next_request_id = 30;
  clock = 100;
  audits = [];
  calls = [];
  push_calls = [];
  notices = [];
}

abbrev db : Db
db = db_with RequestStatus.pending

pub links-Unique : Unique (link ∷ [])
links-Unique u p = ground arith

abbrev pub never : RevokeCall → Reply
never call = Reply.unreachable

abbrev always : PushCall → Reply
always call = Reply.answered

abbrev day : List Operation
day =
    Operation.upgrade 9 6 (codes "c") (codes "A")
    ∷ Operation.pam 9 6
    ∷ Operation.revoke 3 7 1 RevokeReason.admin_force true
    ∷ []

run-Unique_example : Unique (run never day db).links × (meets_database_error never day db ≡ false)
run-Unique_example = run-Unique never day db links-Unique

one_link : existing_active_link 9 6 db ≡ Attempt.done (some link)
unfolding existing_active_link
one_link = refl

revoke-actas_example :
    ((revoke_link never link 1 RevokeReason.admin_force true db).0
      ≡ Attempt.done (deactivate 1 RevokeReason.admin_force 100 link))
    × (get_active_link_for_actas 9 6 (revoke_link never link 1 RevokeReason.admin_force true db).1
        ≡ Attempt.failed AccountError.account_link_error)
revoke-actas_example =
    revoke-actas never 9 6 link 1 RevokeReason.admin_force true db (λ c. refl) links-Unique one_link

upgrade-actas_example :
    (get_active_link_for_actas 9 6 db ≡ Attempt.failed AccountError.admin_declared_cannot_act_as)
    × ((l : Link) × ((upgrade_admin_declared_to_ssh 9 6 (codes "c") (codes "A") db).0
          ≡ Attempt.done l)
        × (l.source ≡ LinkSource.ssh_challenge)
        × (get_active_link_for_actas 9 6
              (upgrade_admin_declared_to_ssh 9 6 (codes "c") (codes "A") db).1
            ≡ Attempt.done l))
upgrade-actas_example = upgrade-actas 9 6 (codes "c") (codes "A") db link links-Unique one_link refl

key_found : find_key 5 db.keys ≡ some key
unfolding find_key
key_found = refl

revoke-entries_example :
    ((revoke_link never link 1 RevokeReason.admin_force true db).0
      ≡ Attempt.done (deactivate 1 RevokeReason.admin_force 100 link))
    × (select (pushed_for 6 9) (revoke_link never link 1 RevokeReason.admin_force true db).1.entries
        ≡ [])
revoke-entries_example =
    revoke-entries never link account 1 RevokeReason.admin_force db (λ c. refl) links-Unique refl
      refl ((key, key_found), tt)

abbrev denial : Decision
denial = Decision.deny none 1

denied :
    (decide always denial 4 7 db).0
    ≡ Attempt.done
        (record (asked RequestStatus.denied) { decided_by_user_id = some 1; decided_at = some 100 })
unfolding decide deny_request load_request_in_lab find_request
denied = refl

decide-once_example :
    ((decide always (Decision.approve none 1) 4 7 (decide always denial 4 7 db).1).1
      ≡ (decide always denial 4 7 db).1)
    × (is_refused (decide always (Decision.approve none 1) 4 7 (decide always denial 4 7 db).1).0
        ≡ true)
decide-once_example =
    decide-once 4 7 always denial (Decision.approve none 1) db
      (record (asked RequestStatus.denied) { decided_by_user_id = some 1; decided_at = some 100 })
      denied

request_found : load_request_in_lab 4 7 db ≡ Attempt.done (asked RequestStatus.pending, account)
unfolding load_request_in_lab find_request
request_found = refl

latest_key : latest_active_key 9 db.keys ≡ some key
unfolding latest_active_key
latest_key = refl

approve-stranded_example :
    ((approve_request always 4 none 1 7 db).0 ≡ Attempt.failed AccountError.integrity_error)
    × ((approve_request always 4 none 1 7 db).1.push_calls
        ≡ [] ++ push_call (asked RequestStatus.pending) account key false ∷ [])
approve-stranded_example =
    approve-stranded always 4 none 1 7 db (asked RequestStatus.pending) account key request_found
      refl latest_key refl refl

-- The request is approved, and the key not pushed yet.
abbrev unpushed : Db
unpushed = record (db_with RequestStatus.approved) { entries = [] }

pushed : is_pushed (retry_push_for_request always 4 1 7 unpushed).0 ≡ true
unfolding retry_push_for_request load_request_in_lab find_request latest_active_key find_key_entry
pushed = refl

retry-again_example :
    (is_pushed
        (retry_push_for_request always 4 2 7 (retry_push_for_request always 4 1 7 unpushed).1).0
      ≡ true)
    × ((retry_push_for_request always 4 2 7
          (retry_push_for_request always 4 1 7 unpushed).1).1.push_calls
        ≡ (retry_push_for_request always 4 1 7 unpushed).1.push_calls)
    × ((retry_push_for_request always 4 2 7
          (retry_push_for_request always 4 1 7 unpushed).1).1.entries
        ≡ (retry_push_for_request always 4 1 7 unpushed).1.entries)
retry-again_example = retry-again always always 1 2 4 7 unpushed pushed
