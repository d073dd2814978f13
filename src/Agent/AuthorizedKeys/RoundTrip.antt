-- ===== src/Agent/AuthorizedKeys/RoundTrip.antt =====
-- Pushing and revoking, one after the other.
use core_lab.Prelude.{
  ◌≡◌, refl, ap, ◌∙◌, Bool, true, false, Option, none, some, List, [], ◌∷◌, ◌++◌, append-nil, arith,
  is_empty, some_of, All, if◌then◌else◌,
}
use mathlib.Core.List.{reverse_aux}
use core_lab.Data.Row.{Text}
use core_lab.Data.Strings.{split, strip, is_space}
use core_lab.Data.Strings.Words.{split-space, split-strip}
use core_lab.Data.Strings.Lines.{
  splitlines, join_lines, IsOneLine, splitlines-AreLines, splitlines-join_lines,
}
use core_lab.Agent.AuthorizedKeys.Line.{body_of, and_then, fingerprint_for_pubkey}
use core_lab.Agent.AuthorizedKeys.Rewrite.{
  holds, without_header, is_header, revoke_lines, rewrite_for_revoke,
}

All-reverse_aux {κ} :
    (P : Text → Type κ) (xs ys : List Text) → All P xs → All P ys → All P (reverse_aux xs ys)
All-reverse_aux P [] ys h k = k
All-reverse_aux P (x ∷ xs) ys h k = All-reverse_aux P xs (x ∷ ys) h.1 (h.0, k)

reverse_aux_twice :
    (xs ys zs : List Text) → reverse_aux (reverse_aux xs ys) zs ≡ reverse_aux ys (xs ++ zs)
reverse_aux_twice [] ys zs = refl
reverse_aux_twice (x ∷ xs) ys zs = reverse_aux_twice xs (x ∷ ys) zs

-- The last line is a header of an older version.
unfoldable pub ends_in_header : List Text → Bool
ends_in_header [] = false
ends_in_header (x ∷ []) = is_header x
ends_in_header (x ∷ y ∷ lines) = ends_in_header (y ∷ lines)

module _ (digest : Text → Option Text) (fp : Text) where
  -- No line holds a key with the fingerprint.
  abbrev pub Free : List Text → Type 0
  Free = All (λ line. holds digest fp line ≡ false)

  pub Free-some_of : (lines : List Text) → Free lines → some_of (holds digest fp) lines ≡ false
  Free-some_of [] h = refl
  Free-some_of (line ∷ lines) h = ground (arith, h.0, Free-some_of lines h.1)

  without_header-All {κ} :
      (P : Text → Type κ) (kept : List Text) → All P kept → All P (without_header kept)
  unfolding without_header
  without_header-All P [] h = h
  without_header-All P (line ∷ kept) h = go (is_header line)
    where
      go : (b : Bool) → All P (if b then kept else line ∷ kept)
      go true = h.1
      go false = h

  -- What is kept of lines with a property has it.
  revoke_lines-All {κ} :
      (P : Text → Type κ) (kept lines : List Text)
      → All P kept
      → All P lines
      → All P (revoke_lines digest fp kept lines)
  unfolding revoke_lines
  revoke_lines-All P kept [] h k = All-reverse_aux P kept [] h tt
  revoke_lines-All P kept (line ∷ lines) h k =
      revoke_lines-All P (if holds digest fp line then without_header kept else line ∷ kept) lines
        (go (holds digest fp line)) k.1
    where
      go : (b : Bool) → All P (if b then without_header kept else line ∷ kept)
      go true = without_header-All P kept h
      go false = (k.0, h)

  revoke_lines-Free :
      (kept lines : List Text) → Free kept → Free (revoke_lines digest fp kept lines)
  unfolding revoke_lines
  revoke_lines-Free kept [] h = All-reverse_aux _ kept [] h tt
  revoke_lines-Free kept (line ∷ lines) h =
      revoke_lines-Free (if holds digest fp line then without_header kept else line ∷ kept) lines
        (go (holds digest fp line) refl)
    where
      go :
          (b : Bool)
          → holds digest fp line ≡ b
          → Free (if b then without_header kept else line ∷ kept)
      go true e = without_header-All _ kept h
      go false e = (e, h)

  -- Lines without the key are all kept.
  revoke_lines_unchanged :
      (kept lines : List Text)
      → Free lines
      → revoke_lines digest fp kept lines ≡ reverse_aux kept lines
  unfolding revoke_lines
  revoke_lines_unchanged kept [] h = refl
  revoke_lines_unchanged kept (line ∷ lines) h =
      rw h.0 (revoke_lines_unchanged (line ∷ kept) lines h.1)

  -- The key in the last line only.
  pub revoke_lines_last :
      (kept lines : List Text) (line : Text)
      → Free lines
      → holds digest fp line ≡ true
      → revoke_lines digest fp kept (lines ++ line ∷ [])
        ≡ reverse_aux (without_header (reverse_aux lines kept)) []
  unfolding revoke_lines
  revoke_lines_last kept [] line h k =
      ap (λ b. reverse_aux (if b then without_header kept else line ∷ kept) []) k
  revoke_lines_last kept (x ∷ lines) line h k =
      ap
        (λ b.
          revoke_lines digest fp (if b then without_header kept else x ∷ kept) (lines ++ line ∷ []))
        h.0
      ∙ revoke_lines_last (x ∷ kept) lines line h.1 k

  -- After a revocation no line of the file holds the key, and revoking it again reports nothing
  -- removed and leaves the file as it is.
  pub revoke-again :
      (existing : Text)
      → (some_of (holds digest fp) (splitlines (rewrite_for_revoke digest existing fp).0) ≡ false)
        × (rewrite_for_revoke digest (rewrite_for_revoke digest existing fp).0 fp
            ≡ ((rewrite_for_revoke digest existing fp).0, false))
  unfolding rewrite_for_revoke
  revoke-again existing = (
    ap (some_of (holds digest fp)) back ∙ Free-some_of kept free,
    ground (arith, back, Free-some_of kept free, revoke_lines_unchanged [] kept free),
  )
    where
      kept : List Text
      kept = revoke_lines digest fp [] (splitlines existing)

      free : Free kept
      free = revoke_lines-Free [] (splitlines existing) tt

      back : splitlines (join_lines kept) ≡ kept
      back =
          splitlines-join_lines kept
            (revoke_lines-All IsOneLine [] (splitlines existing) tt (splitlines-AreLines existing))

-- The lines in reverse, where the last one is no header.
without_header_last :
    (lines kept : List Text)
    → ends_in_header lines ≡ false
    → is_empty lines ≡ false
    → without_header (reverse_aux lines kept) ≡ reverse_aux lines kept
unfolding ends_in_header without_header
without_header_last [] kept h k = cc
without_header_last (x ∷ []) kept h k = ground (arith, h)
without_header_last (x ∷ y ∷ lines) kept h k = without_header_last (y ∷ lines) (x ∷ kept) h refl

pub restored :
    (lines : List Text)
    → ends_in_header lines ≡ false
    → reverse_aux (without_header (reverse_aux lines [])) [] ≡ lines
unfolding without_header
restored [] h = refl
restored (x ∷ lines) h =
    ap (λ kept. reverse_aux kept []) (without_header_last (x ∷ lines) [] h refl)
    ∙ (reverse_aux_twice (x ∷ lines) [] [] ∙ append-nil (x ∷ lines))

-- The first body among words is found before others that follow.
pub body_of-append :
    (parts others : List Text) (body : Text)
    → body_of parts ≡ some body
    → body_of (parts ++ others) ≡ some body
unfolding body_of
body_of-append [] others body h = cc
body_of-append (part ∷ []) others body h = cc
body_of-append (part ∷ next ∷ parts) others body h =
    ground (arith, h, body_of-append (next ∷ parts) others body)

module _ (digest : Text → Option Text) where
  pub some-and_then :
      (o : Option Text) (fp : Text)
      → and_then o digest ≡ some fp
      → (b : Text) × (o ≡ some b) × (digest b ≡ some fp)
  some-and_then none fp h = cc
  some-and_then (some b) fp h = (b, refl, h)

  -- A label behind a key leaves its fingerprint as it is.
  pub fingerprint-labelled :
      (key label fp : Text)
      → fingerprint_for_pubkey digest key ≡ some fp
      → fingerprint_for_pubkey digest (strip key ++ 32 ∷ label) ≡ some fp
  unfolding fingerprint_for_pubkey is_space
  fingerprint-labelled key label fp h =
      let (body, found, digested) = some-and_then (body_of (split (strip key))) fp h in
      ground (
        arith,
        split-strip (strip key ++ 32 ∷ label),
        split-space (strip key) label 32 refl,
        body_of-append (split (strip key)) (split label) body found,
        digested,
      )
