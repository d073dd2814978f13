-- ===== src/Users/Keys.antt =====
-- SSH public keys of users: parsing them, and the service that adds and removes them.
use core_lab.Prelude.{
  ℕ, ◌+◌, Bool, true, false, ◌&&◌, ◌||◌, not, Option, none, some, List, [], ◌∷◌, ◌++◌, ◌==◌, select,
  some_of, if◌then◌else◌, is_empty,
}
use core_lab.Data.Row.{Text, Instant}
use core_lab.Data.Strings.{text_eq, is_space, lstrip, strip, split}
use core_lab.Session.Write.{codes}
use core_lab.Accounts.Tables.{SshPublicKey}
use core_lab.Accounts.Revoke.{find_key}
use core_lab.Users.Tables.{Outside, AuditEvent, Db, ServiceError, Outcome, one_or_none, audit, now}

-- ALLOWED_KEY_TYPES
abbrev allowed_key_types : List Text
allowed_key_types =
    codes "ssh-ed25519"
    ∷ codes "ssh-rsa"
    ∷ codes "ecdsa-sha2-nistp256"
    ∷ codes "ecdsa-sha2-nistp384"
    ∷ codes "ecdsa-sha2-nistp521"
    ∷ codes "sk-ssh-ed25519@openssh.com"
    ∷ codes "sk-ecdsa-sha2-nistp256@openssh.com"
    ∷ []

pub record PublicKey : Type 0 where
  pub key_type : Text
  pub blob : Text
  pub comment : Option Text

-- What follows the first word.
abbrev drop_word : Text → Text
drop_word [] = []
drop_word (c ∷ text) = let rest = drop_word text in if is_space c then c ∷ text else rest

-- `parts[2]` of `split(maxsplit=2)`, where the text was stripped
abbrev third_part : Text → Option Text
third_part text =
    let rest = lstrip (drop_word (lstrip (drop_word text))) in
    if is_empty rest then none else some rest

abbrev decoded : {A B : Type 0} → Option A → B → Outcome B
decoded none b = Outcome.failed ServiceError.invalid_public_key
decoded (some bytes) b = Outcome.done b

abbrev parse_words : Outside → Option Text → List Text → Outcome PublicKey
parse_words outside comment (key_type ∷ (blob ∷ rest)) =
    if some_of (text_eq key_type) allowed_key_types
    then decoded (outside.b64decode blob)
        (record { key_type = key_type; blob = blob; comment = comment })
    else Outcome.failed ServiceError.invalid_public_key
parse_words outside comment _ = Outcome.failed ServiceError.invalid_public_key

-- `parse_public_key`
unfoldable pub parse_public_key : Outside → Text → Outcome PublicKey
parse_public_key outside raw =
    let cleaned = strip raw in
    if some_of (λ c. c == 10 || c == 13) cleaned
    then Outcome.failed ServiceError.invalid_public_key
    else parse_words outside (third_part cleaned) (split cleaned)

abbrev fingerprint_from : Outside → Option (List ℕ) → Text
fingerprint_from outside none = []
fingerprint_from outside (some bytes) = outside.fingerprint_of bytes

-- `fingerprint_sha256`, of a blob that `parse_public_key` has decoded before.
unfoldable pub fingerprint_sha256 : Outside → (key_blob_b64 : Text) → Text
fingerprint_sha256 outside blob = fingerprint_from outside (outside.b64decode blob)

-- The user's keys with the fingerprint, active or not.
abbrev pub same_key : (user_id : ℕ) → Text → SshPublicKey → Bool
same_key user_id fp k = k.user_id == user_id && text_eq k.fingerprint_sha256 fp

-- `payload.label or comment`
abbrev label_or : Option Text → Option Text → Option Text
label_or none comment = comment
label_or (some label) comment = if is_empty label then comment else some label

abbrev pub new_key :
    (public_key : Text) (label : Option Text) (owner_user_id : ℕ) (parsed : PublicKey) (fp : Text)
    → Db
    → SshPublicKey
new_key public_key label owner_user_id parsed fp db = record {
  id = db.next_key_id;
  user_id = owner_user_id;
  public_key = strip public_key;
  fingerprint_sha256 = fp;
  key_type = parsed.key_type;
  comment = label_or label parsed.comment;
  is_active = true;
  disabled_at = none;
}

-- The row of the new key, unless the query found one with its fingerprint.
abbrev pub add_new : SshPublicKey → Db → Outcome (Option SshPublicKey) → Outcome SshPublicKey × Db
add_new row db (Outcome.failed e) = (Outcome.failed e, db)
add_new row db (Outcome.done (some k)) = (Outcome.failed ServiceError.duplicate_key, db)
add_new row db (Outcome.done none) = (
  Outcome.done row,
  audit (AuditEvent.key_added row.user_id row.id) (record db {
    accounts = record db.accounts { keys = db.accounts.keys ++ row ∷ [] };
    next_key_id = db.next_key_id + 1;
  }),
)

abbrev pub add_parsed :
    Outside
    → (public_key : Text) (label : Option Text) (owner_user_id : ℕ) → Db
    → Outcome PublicKey
    → Outcome SshPublicKey × Db
add_parsed outside public_key label owner_user_id db (Outcome.failed e) = (Outcome.failed e, db)
add_parsed outside public_key label owner_user_id db (Outcome.done parsed) =
    let fp = fingerprint_sha256 outside parsed.blob in
    add_new (new_key public_key label owner_user_id parsed fp db) db
      (one_or_none (select (same_key owner_user_id fp) db.accounts.keys))

-- `add_key`
unfoldable pub add_key :
    Outside
    → (public_key : Text) (label : Option Text) (owner_user_id : ℕ) → Db
    → Outcome SshPublicKey × Db
add_key outside public_key label owner_user_id db =
    add_parsed outside public_key label owner_user_id db (parse_public_key outside public_key)

unfoldable pub disable_key : Instant → (key_id : ℕ) → List SshPublicKey → List SshPublicKey
disable_key at key_id [] = []
disable_key at key_id (k ∷ keys) =
    (if k.id == key_id then record k { is_active = false; disabled_at = some at } else k)
    ∷ disable_key at key_id keys

abbrev pub remove_found : (owner_user_id : ℕ) → Db → Option SshPublicKey → Outcome Bool × Db
remove_found owner_user_id db none = (Outcome.failed ServiceError.key_not_found, db)
remove_found owner_user_id db (some k) =
    if not (k.user_id == owner_user_id)
    then (Outcome.failed ServiceError.key_not_found, db)
    else if k.is_active
    then (
      Outcome.done true,
      audit (AuditEvent.key_deleted owner_user_id k.id) (record db {
        accounts = record db.accounts { keys = disable_key (now db) k.id db.accounts.keys };
      }),
    )
    else (Outcome.done false, db)

-- `remove_key`: whether the key was removed, rather than already inactive.
unfoldable pub remove_key : (key_id owner_user_id : ℕ) → Db → Outcome Bool × Db
remove_key key_id owner_user_id db =
    remove_found owner_user_id db (find_key key_id db.accounts.keys)
