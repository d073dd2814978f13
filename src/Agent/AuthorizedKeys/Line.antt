-- ===== src/Agent/AuthorizedKeys/Line.antt =====
-- One line of an authorized_keys file. What `base64` and `hashlib` make of a key's body is an
-- argument: its fingerprint, or nothing where the body does not decode.
use core_lab.Prelude.{
  Bool, ◌||◌, Option, none, some, List, [], ◌∷◌, ◌++◌, ◌==◌, is_empty, some_of, if◌then◌else◌,
}
use core_lab.Data.Row.{Text}
use core_lab.Data.Strings.{starts_with, strip, split}
use core_lab.Session.Write.{codes}

-- `_is_key_type`
unfoldable pub is_key_type : Text → Bool
is_key_type part =
    (starts_with (codes "ssh-") part || starts_with (codes "ecdsa-") part)
    || (starts_with (codes "sk-") part || starts_with (codes "rsa-sha2-") part)

-- The word after the first key type that another word follows.
unfoldable pub body_of : List Text → Option Text
body_of [] = none
body_of (part ∷ []) = none
body_of (part ∷ body ∷ parts) = if is_key_type part then some body else body_of (body ∷ parts)

abbrev pub and_then : Option Text → (Text → Option Text) → Option Text
and_then none f = none
and_then (some x) f = f x

-- `_fingerprint_for_pubkey`; nothing stands for InvalidPublicKeyError.
unfoldable pub fingerprint_for_pubkey : (Text → Option Text) → Text → Option Text
fingerprint_for_pubkey digest public_key = and_then (body_of (split (strip public_key))) digest

-- `_validate_single_line`
unfoldable pub validate_single_line : Text → Option Text
validate_single_line value =
    if is_empty (strip value) || some_of (λ c. c == 10 || (c == 13 || c == 0)) (strip value)
    then none
    else some (strip value)

spaced : (Text → Option Text) → Option Text → Option Text → Option Text
spaced digest none comment = none
spaced digest (some key) none = none
spaced digest (some key) (some comment) =
    and_then (fingerprint_for_pubkey digest key) (λ fp. some (key ++ 32 ∷ comment))

-- `_authorized_key_line`
unfoldable pub authorized_key_line : (Text → Option Text) → (public_key label : Text) → Option Text
unfolding spaced
authorized_key_line digest public_key label =
    spaced digest (validate_single_line public_key) (validate_single_line label)

-- The line holds neither a key nor anything else that is looked at.
unfoldable pub is_skipped : Text → Bool
is_skipped line = is_empty (strip line) || starts_with (codes "#") (strip line)

-- The fingerprint of the key in a line, where it holds one.
unfoldable pub line_fingerprint : (Text → Option Text) → Text → Option Text
line_fingerprint digest line =
    if is_skipped line then none else fingerprint_for_pubkey digest (strip line)
