-- ===== src/Agent/AuthorizedKeys/Handlers.antt =====
-- The handlers `push` and `revoke` outside of mock mode, on the file of one account. What the
-- commands come to, the account's entry in the password database and the capability are inputs.
use core_lab.Prelude.{
  ℕ, Bool, true, false, ◌||◌, ◌&&◌, not, Option, none, some, [], ◌∷◌, drop, length, leb, ◌==◌,
  is_empty, every, if◌then◌else◌,
}
use core_lab.Data.Row.{Text}
use core_lab.Data.Strings.{text_eq, starts_with}
use core_lab.Session.Write.{codes}
use core_lab.Agent.AuthorizedKeys.Line.{fingerprint_for_pubkey, authorized_key_line}
use core_lab.Agent.AuthorizedKeys.Rewrite.{rewrite_for_push, rewrite_for_revoke}

pub data Failure : Type 0 where
  capability_disabled invalid_username invalid_public_key user_not_found : Failure
  unsupported_home_directory command_failed : Failure

abbrev letter : ℕ → Bool
letter c = leb b'a' c && leb c b'z'

abbrev digit : ℕ → Bool
digit c = leb b'0' c && leb c b'9'

abbrev username_char : ℕ → Bool
username_char c = (letter c || digit c) || (c == b'_' || c == b'-')

-- `_USERNAME_RE`, `^[a-z_][a-z0-9_-]{0,31}$`
unfoldable pub valid_username : Text → Bool
valid_username [] = false
valid_username (c ∷ rest) =
    (letter c || c == b'_') && (every username_char rest && leb (length rest) 31)

abbrev home_char : ℕ → Bool
home_char c =
    (letter c || (leb b'A' c && leb c b'Z')) || (digit c || (c == b'.' || (c == b'_' || c == b'-')))

-- `_HOME_RE`, `^/home/[A-Za-z0-9._-]+$`, and no `..` among the parts
unfoldable pub valid_home : Text → Bool
valid_home home =
    starts_with (codes "/home/") home
    && (not (is_empty (drop 6 home))
        && (every home_char (drop 6 home) && not (text_eq (drop 6 home) (codes ".."))))

-- What the system gives: the capability, the home directory of the user, as `Path` writes it, if there is one, and
-- which of the commands succeed. Reading a file that does not exist gives the empty text.
pub record System : Type 0 where
  pub enabled : Bool
  pub home_directory : Option Text
  pub ensure_dir_ok : Bool
  pub read_ok : Bool
  pub install_ok : Bool

-- The end of a handler with the content of the file.
pub data Outcome : Type 0 where
  pushed : (fingerprint : Text) → Outcome
  revoked : Bool → Outcome
  failed : Failure → Outcome

install : System → (existing desired : Text) → Outcome → Outcome × Text
install sys existing desired done =
    if text_eq desired existing
    then (done, existing)
    else if sys.install_ok
    then (done, desired)
    else (Outcome.failed Failure.command_failed, existing)

install_push : System → (fingerprint existing : Text) → Option Text → Outcome × Text
unfolding install
install_push sys fp existing none = (Outcome.failed Failure.invalid_public_key, existing)
install_push sys fp existing (some desired) = install sys existing desired (Outcome.pushed fp)

push_in_home :
    (Text → Option Text)
    → System
    → (fingerprint line existing : Text) → Option Text
    → Outcome × Text
unfolding install_push
push_in_home digest sys fp line existing none = (Outcome.failed Failure.user_not_found, existing)
push_in_home digest sys fp line existing (some home) =
    if not (valid_home home)
    then (Outcome.failed Failure.unsupported_home_directory, existing)
    else if not sys.ensure_dir_ok || not sys.read_ok
    then (Outcome.failed Failure.command_failed, existing)
    else install_push sys fp existing (rewrite_for_push digest existing line)

push_line :
    (Text → Option Text)
    → System
    → (existing : Text) → (fingerprint line : Option Text) → Outcome × Text
unfolding push_in_home
push_line digest sys existing none line = (Outcome.failed Failure.invalid_public_key, existing)
push_line digest sys existing (some fp) none = (Outcome.failed Failure.invalid_public_key, existing)
push_line digest sys existing (some fp) (some line) =
    push_in_home digest sys fp line existing sys.home_directory

unfoldable pub push :
    (Text → Option Text)
    → System
    → (linux_username public_key label existing : Text) → Outcome × Text
unfolding push_line
push digest sys linux_username public_key label existing =
    if not sys.enabled
    then (Outcome.failed Failure.capability_disabled, existing)
    else if not (valid_username linux_username)
    then (Outcome.failed Failure.invalid_username, existing)
    else push_line digest sys existing (fingerprint_for_pubkey digest public_key)
        (authorized_key_line digest public_key label)

install_revoke : System → (existing : Text) → Text × Bool → Outcome × Text
unfolding install
install_revoke sys existing (desired, removed) =
    if removed
    then install sys existing desired (Outcome.revoked true)
    else (Outcome.revoked false, existing)

revoke_in_home :
    (Text → Option Text) → System → (fingerprint existing : Text) → Option Text → Outcome × Text
unfolding install_revoke
revoke_in_home digest sys fp existing none = (Outcome.revoked false, existing)
revoke_in_home digest sys fp existing (some home) =
    if not (valid_home home)
    then (Outcome.failed Failure.unsupported_home_directory, existing)
    else if not sys.read_ok
    then (Outcome.failed Failure.command_failed, existing)
    else install_revoke sys existing (rewrite_for_revoke digest existing fp)

unfoldable pub revoke :
    (Text → Option Text) → System → (linux_username fingerprint existing : Text) → Outcome × Text
unfolding revoke_in_home
revoke digest sys linux_username fingerprint existing =
    if not sys.enabled
    then (Outcome.failed Failure.capability_disabled, existing)
    else if not (valid_username linux_username)
    then (Outcome.failed Failure.invalid_username, existing)
    else revoke_in_home digest sys fingerprint existing sys.home_directory
