-- ===== src/Data/Strings/Words.antt =====
-- The words of a text, and the spaces around it.
use core_lab.Prelude.{ℕ, ◌≡◌, refl, ◌∙◌, Bool, true, false, List, [], ◌∷◌, ◌++◌, arith, is_empty}
use core_lab.Data.Row.{Text}
use core_lab.Data.Strings.{is_space, lstrip, rstrip, strip, split, at_gap, add_letter}

add_letter-append :
    (c : ℕ) (gap : Bool) (words others : List Text)
    → (gap ≡ false → is_empty words ≡ false)
    → add_letter c gap words ++ others ≡ add_letter c gap (words ++ others)
add_letter-append c true words others h = refl
add_letter-append c false [] others h = cc (h refl)
add_letter-append c false (w ∷ words) others h = refl

-- A text that begins with a word has one.
split-word : (text : Text) → at_gap text ≡ false → is_empty (split text) ≡ false
unfolding split
split-word [] h = cc
split-word (c ∷ text) h = ground arith

at_gap-append : (a b : Text) (s : ℕ) → is_space s ≡ true → at_gap (a ++ s ∷ b) ≡ at_gap a
at_gap-append [] b s h = h
at_gap-append (c ∷ a) b s h = refl

-- A space parts the words on its two sides.
pub split-space : (a b : Text) (s : ℕ) → is_space s ≡ true → split (a ++ s ∷ b) ≡ split a ++ split b
unfolding split
split-space [] b s h = ground (arith, h)
split-space (c ∷ a) b s h = ground (
  arith,
  h,
  split-space a b s h,
  at_gap-append a b s h,
  add_letter-append c (at_gap a) (split a) (split b) (split-word a),
)

split-lstrip : (text : Text) → split (lstrip text) ≡ split text
unfolding split lstrip
split-lstrip [] = refl
split-lstrip (c ∷ text) = ground (arith, split-lstrip text)

at_gap-rstrip : (text : Text) → at_gap (rstrip text) ≡ at_gap text
unfolding rstrip
at_gap-rstrip [] = refl
at_gap-rstrip (c ∷ text) = ground arith

split-rstrip : (text : Text) → split (rstrip text) ≡ split text
unfolding split rstrip
split-rstrip [] = refl
split-rstrip (c ∷ text) = ground (arith, split-rstrip text, at_gap-rstrip text)

-- The spaces around a text are in no word.
pub split-strip : (text : Text) → split (strip text) ≡ split text
split-strip text = split-rstrip (lstrip text) ∙ split-lstrip text
