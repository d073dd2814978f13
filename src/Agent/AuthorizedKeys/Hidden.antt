-- ===== src/Agent/AuthorizedKeys/Hidden.antt =====
-- A key behind a line break that the check of a single line lets through.
use core_lab.Prelude.{
  ℕ, ◌≡◌, refl, sym, ap, ◌∙◌, true, false, Option, some, [], ◌∷◌, ◌++◌, append_assoc, arith, ◌==◌,
}
use core_lab.Data.Row.{Text}
use core_lab.Data.Strings.{text_eq, split, strip, is_space}
use core_lab.Data.Strings.Equal.{text_eq_sound}
use core_lab.Data.Strings.Words.{split-strip, split-space}
use core_lab.Data.Strings.Lines.{is_line_break, splitlines, join_lines, IsOneLine, splitlines-line}
use core_lab.Agent.AuthorizedKeys.Line.{
  body_of, fingerprint_for_pubkey, validate_single_line, authorized_key_line, line_fingerprint,
  is_skipped,
}
use core_lab.Agent.AuthorizedKeys.Rewrite.{holds, rewrite_for_revoke, revoke_lines, without_header}
use core_lab.Agent.AuthorizedKeys.RoundTrip.{some-and_then, body_of-append}
use core_lab.Agent.AuthorizedKeys.Handlers.{System, Outcome, push, revoke}
use core_lab.Agent.AuthorizedKeys.Restore.{
  Ready, Pushable, push-ready, holds-line, fingerprint-strip,
}

-- Every character that ends a line is a space.
line_break-space : (c : ℕ) → is_line_break c ≡ true → is_space c ≡ true
unfolding is_line_break is_space
line_break-space c h = ground arith

-- Two keys with a line break between them, where the check of a single line sees none.
pub record Joined (digest : Text → Option Text) (a b : Text) (c : ℕ) (fa fb : Text) : Type 0 where
  pub breaks : is_line_break c ≡ true
  pub unseen : validate_single_line (a ++ c ∷ b) ≡ some (a ++ c ∷ b)
  pub no_return : (c == 13) ≡ false
  pub first : fingerprint_for_pubkey digest a ≡ some fa
  pub first_line : IsOneLine a
  pub first_active : is_skipped a ≡ false
  pub second : fingerprint_for_pubkey digest b ≡ some fb
  pub distinct : text_eq fb fa ≡ false

-- A second line, with the label behind its key.
pub record Labelled (b label : Text) : Type 0 where
  pub valid : validate_single_line label ≡ some label
  pub line : IsOneLine (b ++ 32 ∷ label)
  pub active : is_skipped (b ++ 32 ∷ label) ≡ false

module _ (digest : Text → Option Text) where
  -- What follows a key and a space leaves its fingerprint as it is.
  fingerprint-append :
      (key rest fp : Text) (c : ℕ)
      → is_space c ≡ true
      → fingerprint_for_pubkey digest key ≡ some fp
      → fingerprint_for_pubkey digest (key ++ c ∷ rest) ≡ some fp
  unfolding fingerprint_for_pubkey
  fingerprint-append key rest fp c space h =
      let (body, found, digested) = some-and_then digest (body_of (split (strip key))) fp h in
      ground (
        arith,
        split-strip (key ++ c ∷ rest),
        split-strip key,
        split-space key rest c space,
        body_of-append (split key) (split rest) body,
        found,
        digested,
      )

  holds-other :
      (fp other line : Text)
      → fingerprint_for_pubkey digest (strip line) ≡ some other
      → text_eq other fp ≡ false
      → holds digest fp line ≡ false
  unfolding holds line_fingerprint
  holds-other fp other line h k = ground (arith, h, k)

  module _ (sys : System) (linux_username label a b : Text) (c : ℕ) (fa fb : Text)
      (ready : Ready sys linux_username) (joined : Joined digest a b c fa fb)
      (labelled : Labelled b label) where
    first-print : fingerprint_for_pubkey digest (a ++ c ∷ b) ≡ some fa
    first-print = fingerprint-append a b fa c (line_break-space c joined.breaks) joined.first

    second-print : fingerprint_for_pubkey digest (b ++ 32 ∷ label) ≡ some fb
    unfolding is_space
    second-print = fingerprint-append b label fb 32 refl joined.second

    new : Pushable digest (a ++ c ∷ b) label [] ((a ++ c ∷ b) ++ 32 ∷ label) fa
    unfolding authorized_key_line splitlines
    new = record {
      print = first-print;
      written = ground (arith, joined.unseen, labelled.valid, first-print);
      free = tt;
    }

    -- The file after the push: two lines.
    two_lines :
        splitlines (join_lines (((a ++ c ∷ b) ++ 32 ∷ label) ∷ [])) ≡ a ∷ (b ++ 32 ∷ label) ∷ []
    unfolding join_lines splitlines is_line_break
    two_lines =
        ap splitlines (
          append_assoc (a ++ c ∷ b) (32 ∷ label) (10 ∷ [])
          ∙ append_assoc a (c ∷ b) (32 ∷ label ++ 10 ∷ []))
        ∙ (splitlines-line a (b ++ (32 ∷ label ++ 10 ∷ [])) c joined.first_line joined.breaks
              joined.no_return
            ∙ ap (λ lines. a ∷ lines)
                (ap splitlines (sym (append_assoc b (32 ∷ label) (10 ∷ [])))
                  ∙ splitlines-line (b ++ 32 ∷ label) [] 10 labelled.line refl refl))

    second-strip : fingerprint_for_pubkey digest (strip (b ++ 32 ∷ label)) ≡ some fb
    second-strip = fingerprint-strip digest (b ++ 32 ∷ label) ∙ second-print

    rewrite_hidden :
        rewrite_for_revoke digest (join_lines (((a ++ c ∷ b) ++ 32 ∷ label) ∷ [])) fa
        ≡ (join_lines ((b ++ 32 ∷ label) ∷ []), true)
    unfolding rewrite_for_revoke revoke_lines without_header
    rewrite_hidden = ground (
      arith,
      two_lines,
      holds-line digest fa a joined.first joined.first_active,
      holds-other fa fb (b ++ 32 ∷ label) second-strip joined.distinct,
    )

    -- Where the system lets the handlers do their work, a key that has another key behind a line break
    -- which the check of a single line does not look for is pushed onto an empty file under the
    -- fingerprint of the first key, and revoking that fingerprint leaves the second key in the file, in
    -- a line of its own.
    pub revoke-hidden :
        ((push digest sys linux_username (a ++ c ∷ b) label []).0 ≡ Outcome.pushed fa)
        × (revoke digest sys linux_username fa
              (push digest sys linux_username (a ++ c ∷ b) label []).1
            ≡ (Outcome.revoked true, (b ++ 32 ∷ label) ++ 10 ∷ []))
        × (holds digest fb (b ++ 32 ∷ label) ≡ true)
    unfolding revoke join_lines splitlines
    revoke-hidden =
        let (h, at, ok) = ready.home in
        let pushed =
          push-ready digest sys linux_username (a ++ c ∷ b) label [] ((a ++ c ∷ b) ++ 32 ∷ label) fa
            ready new in
        (
          ap (λ (x : Outcome × Text). x.0) pushed,
          ground (
            arith,
            ready.enabled,
            ready.username,
            at,
            ok,
            ready.read_ok,
            ready.install_ok,
            pushed,
            rewrite_hidden,
            text_eq_sound (join_lines ((b ++ 32 ∷ label) ∷ []))
                (join_lines (((a ++ c ∷ b) ++ 32 ∷ label) ∷ [])),
          ),
          holds-line digest fb (b ++ 32 ∷ label) second-print labelled.active,
        )
