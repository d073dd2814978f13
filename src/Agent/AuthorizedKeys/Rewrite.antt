-- ===== src/Agent/AuthorizedKeys/Rewrite.antt =====
-- The content of the file after a key has been pushed or revoked.
use core_lab.Prelude.{Bool, false, Option, none, some, List, [], ◌∷◌, ◌++◌, some_of, if◌then◌else◌}
use mathlib.Core.List.{reverse_aux}
use core_lab.Data.Row.{Text}
use core_lab.Data.Strings.{text_eq, starts_with, lstrip}
use core_lab.Data.Strings.Lines.{splitlines, join_lines}
use core_lab.Session.Write.{codes}
use core_lab.Agent.AuthorizedKeys.Line.{fingerprint_for_pubkey, line_fingerprint}

-- The line's key has the fingerprint.
unfoldable pub holds : (Text → Option Text) → (fingerprint line : Text) → Bool
holds digest fingerprint line = elim (line_fingerprint digest line) [
  | none ↦ false
  | some fp ↦ text_eq fp fingerprint
]

-- The lines after a push, where the new line's fingerprint is known.
unfoldable pub pushed_lines :
    (Text → Option Text) → (fingerprint line : Text) → List Text → List Text
pushed_lines digest fingerprint line lines =
    if some_of (holds digest fingerprint) lines then lines else lines ++ line ∷ []

rewritten : (Text → Option Text) → (existing line : Text) → Option Text → Option Text
rewritten digest existing line none = none
rewritten digest existing line (some fp) =
    some (join_lines (pushed_lines digest fp line (splitlines existing)))

-- `_rewrite_authorized_keys_for_push`
unfoldable pub rewrite_for_push : (Text → Option Text) → (existing line : Text) → Option Text
unfolding rewritten
rewrite_for_push digest existing line =
    rewritten digest existing line (fingerprint_for_pubkey digest line)

-- A comment that an older version wrote above a key.
unfoldable pub is_header : Text → Bool
is_header line = starts_with (codes "# corelab") (lstrip line)

-- `if kept and kept[-1].lstrip().startswith("# corelab"): kept.pop()`, on the kept lines with the
-- last one first.
unfoldable pub without_header : List Text → List Text
without_header [] = []
without_header (line ∷ kept) = if is_header line then kept else line ∷ kept

-- The loop over the lines, with the kept ones in reverse.
unfoldable pub revoke_lines :
    (Text → Option Text) → Text → (kept : List Text) → List Text → List Text
revoke_lines digest fingerprint kept [] = reverse_aux kept []
revoke_lines digest fingerprint kept (line ∷ lines) =
    revoke_lines digest fingerprint
      (if holds digest fingerprint line then without_header kept else line ∷ kept) lines

-- `_rewrite_authorized_keys_for_revoke`
unfoldable pub rewrite_for_revoke :
    (Text → Option Text) → (existing fingerprint : Text) → Text × Bool
rewrite_for_revoke digest existing fingerprint = (
  join_lines (revoke_lines digest fingerprint [] (splitlines existing)),
  some_of (holds digest fingerprint) (splitlines existing),
)
