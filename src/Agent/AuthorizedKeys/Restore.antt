-- ===== src/Agent/AuthorizedKeys/Restore.antt =====
-- A key that is pushed and revoked again, through the handlers.
use core_lab.Prelude.{
  ◌≡◌, sym, ap, subst, true, false, Option, some, List, [], ◌∷◌, ◌++◌, arith, some_of,
}
use core_lab.Prelude.Members.{All-append}
use core_lab.Data.Row.{Text}
use core_lab.Data.Strings.{strip}
use core_lab.Data.Strings.Equal.{text_eq_refl, text_eq_sound}
use core_lab.Data.Strings.Words.{split-strip}
use core_lab.Data.Strings.Lines.{
  splitlines, join_lines, IsOneLine, splitlines-AreLines, splitlines-join_lines,
}
use core_lab.Agent.AuthorizedKeys.Line.{
  body_of, and_then, fingerprint_for_pubkey, validate_single_line, authorized_key_line,
  line_fingerprint, is_skipped,
}
use core_lab.Agent.AuthorizedKeys.Rewrite.{
  holds, pushed_lines, rewrite_for_push, rewrite_for_revoke,
}
use core_lab.Agent.AuthorizedKeys.RoundTrip.{
  ends_in_header, Free, Free-some_of, revoke_lines_last, restored, fingerprint-labelled,
}
use core_lab.Agent.AuthorizedKeys.Handlers.{
  System, Outcome, valid_username, valid_home, push, revoke,
}

module _ (digest : Text → Option Text) where
  authorized_key_line_lem :
      (key label line : Text)
      → authorized_key_line digest key label ≡ some line
      → line ≡ strip key ++ 32 ∷ strip label
  unfolding authorized_key_line validate_single_line
  authorized_key_line_lem key label line h = ground arith

  pub fingerprint-strip :
      (text : Text)
      → fingerprint_for_pubkey digest (strip text) ≡ fingerprint_for_pubkey digest text
  unfolding fingerprint_for_pubkey
  fingerprint-strip text = ap (λ parts. and_then (body_of parts) digest) (split-strip (strip text))

  pub holds-line :
      (fp line : Text)
      → fingerprint_for_pubkey digest line ≡ some fp
      → is_skipped line ≡ false
      → holds digest fp line ≡ true
  unfolding holds line_fingerprint
  holds-line fp line h k = ground (arith, h, k, fingerprint-strip line, text_eq_refl fp)

  some_of-last :
      (fp line : Text) (lines : List Text)
      → holds digest fp line ≡ true
      → some_of (holds digest fp) (lines ++ line ∷ []) ≡ true
  some_of-last fp line [] h = ground (arith, h)
  some_of-last fp line (x ∷ lines) h = ground (arith, some_of-last fp line lines h)

  module _ (key label existing line fp : Text) (print : fingerprint_for_pubkey digest key ≡ some fp)
      (written : authorized_key_line digest key label ≡ some line) where
    line-print : fingerprint_for_pubkey digest line ≡ some fp
    line-print =
        subst (λ l. fingerprint_for_pubkey digest l ≡ some fp)
          (sym (authorized_key_line_lem key label line written))
          (fingerprint-labelled digest key (strip label) fp print)

    rewrite_push :
        Free digest fp (splitlines existing)
        → rewrite_for_push digest existing line
          ≡ some (join_lines (splitlines existing ++ line ∷ []))
    unfolding rewrite_for_push pushed_lines
    rewrite_push free =
        ground (arith, line-print, Free-some_of digest fp (splitlines existing) free)

  module _ (existing line fp : Text) (print : fingerprint_for_pubkey digest line ≡ some fp)
      (single : IsOneLine line) (active : is_skipped line ≡ false) where
    lines : List Text
    lines = splitlines existing

    back : splitlines (join_lines (lines ++ line ∷ [])) ≡ lines ++ line ∷ []
    unfolding lines
    back =
        splitlines-join_lines (lines ++ line ∷ [])
          (All-append IsOneLine lines (line ∷ []) (splitlines-AreLines existing) (single, tt))

    rewrite_revoke :
        Free digest fp (splitlines existing)
        → ends_in_header (splitlines existing) ≡ false
        → rewrite_for_revoke digest (join_lines (splitlines existing ++ line ∷ [])) fp
          ≡ (join_lines (splitlines existing), true)
    unfolding rewrite_for_revoke lines
    rewrite_revoke free plain = ground (
      arith,
      back,
      revoke_lines_last digest fp [] lines line free (holds-line fp line print active),
      restored lines plain,
      some_of-last fp line lines (holds-line fp line print active),
    )

-- The system lets the handlers do their work.
pub record Ready (sys : System) (linux_username : Text) : Type 0 where
  pub enabled : sys.enabled ≡ true
  pub username : valid_username linux_username ≡ true
  pub home : (h : Text) × (sys.home_directory ≡ some h) × (valid_home h ≡ true)
  pub ensure_dir_ok : sys.ensure_dir_ok ≡ true
  pub read_ok : sys.read_ok ≡ true
  pub install_ok : sys.install_ok ≡ true

-- A key that the file does not hold yet, with the line that is written for it.
pub record Pushable (digest : Text → Option Text) (key label existing line fp : Text) : Type 0 where
  pub print : fingerprint_for_pubkey digest key ≡ some fp
  pub written : authorized_key_line digest key label ≡ some line
  pub free : Free digest fp (splitlines existing)

module _ (digest : Text → Option Text) (sys : System)
    (linux_username key label existing line fp : Text) (ready : Ready sys linux_username)
    (new : Pushable digest key label existing line fp) where
  pub push-ready :
      push digest sys linux_username key label existing
      ≡ (Outcome.pushed fp, join_lines (splitlines existing ++ line ∷ []))
  unfolding push
  push-ready =
      let (h, at, ok) = ready.home in
      ground (
        arith,
        ready.enabled,
        ready.username,
        at,
        ok,
        ready.ensure_dir_ok,
        ready.read_ok,
        ready.install_ok,
        new.print,
        new.written,
        rewrite_push digest key label existing line fp new.print new.written new.free,
        text_eq_sound (join_lines (splitlines existing ++ line ∷ [])) existing,
      )

  -- Where the system lets the handlers do their work, pushing a key that the file does not hold yet,
  -- as a line without line breaks that is no comment, and revoking its fingerprint gives back the
  -- lines of the file, if the last of them is no header of an older version: both handlers
  -- succeed, and the file ends with a line feed unless it is empty.
  pub revoke-push :
      IsOneLine line
      → is_skipped line ≡ false
      → ends_in_header (splitlines existing) ≡ false
      → ((push digest sys linux_username key label existing).0 ≡ Outcome.pushed fp)
        × (revoke digest sys linux_username fp (push digest sys linux_username key label existing).1
            ≡ (Outcome.revoked true, join_lines (splitlines existing)))
  unfolding revoke
  revoke-push single active plain =
      let (h, at, ok) = ready.home in
      (
        ap (λ (x : Outcome × Text). x.0) push-ready,
        ground (
          arith,
          ready.enabled,
          ready.username,
          at,
          ok,
          ready.read_ok,
          ready.install_ok,
          push-ready,
          rewrite_revoke digest existing line fp
              (line-print digest key label existing line fp new.print new.written) single active
              new.free plain,
          text_eq_sound (join_lines (splitlines existing))
              (join_lines (splitlines existing ++ line ∷ [])),
        ),
      )
