-- ===== src/Data/Strings.antt =====
-- Python's `str` methods that the program calls on text.
pub mod Lines
pub mod Equal
pub mod Words
use core_lab.Prelude.{
  ℕ, Bool, true, false, ◌&&◌, ◌||◌, Option, none, some, List, [], ◌∷◌, ◌++◌, ◌==◌, leb, is_empty,
  if◌then◌else◌,
}
use core_lab.Data.Row.{Text}

-- `a == b`
unfoldable pub text_eq : Text → Text → Bool
text_eq [] [] = true
text_eq [] (y ∷ ys) = false
text_eq (x ∷ xs) [] = false
text_eq (x ∷ xs) (y ∷ ys) = x == y && text_eq xs ys

-- `text.startswith(prefix)`
unfoldable pub starts_with : Text → Text → Bool
starts_with [] text = true
starts_with (c ∷ prefix) [] = false
starts_with (c ∷ prefix) (x ∷ text) = c == x && starts_with prefix text

abbrev between : ℕ → ℕ → ℕ → Bool
between a b c = leb a c && leb c b

-- `c.isspace()`
unfoldable pub is_space : ℕ → Bool
is_space c =
    (between 9 13 c || between 28 32 c)
    || ((c == 133 || c == 160) || (c == 5760 || between 8192 8202 c))
    || ((c == 8232 || c == 8233) || ((c == 8239 || c == 8287) || c == 12288))

-- `text.lstrip()`
unfoldable pub lstrip : Text → Text
lstrip [] = []
lstrip (c ∷ text) = if is_space c then lstrip text else c ∷ text

-- `text.rstrip()`: a space is kept where something else follows.
unfoldable pub rstrip : Text → Text
rstrip [] = []
rstrip (c ∷ text) = let rest = rstrip text in if is_space c && is_empty rest then [] else c ∷ rest

-- `text.strip()`
abbrev pub strip : Text → Text
strip text = rstrip (lstrip text)

-- The word that a text begins with, added to the words of what follows it.
abbrev add_letter : ℕ → Bool → List Text → List Text
add_letter c true words = (c ∷ []) ∷ words
add_letter c false [] = (c ∷ []) ∷ []
add_letter c false (word ∷ words) = (c ∷ word) ∷ words

abbrev at_gap : Text → Bool
at_gap [] = true
at_gap (c ∷ text) = is_space c

-- `text.split()`
unfoldable pub split : Text → List Text
split [] = []
split (c ∷ text) =
    let words = split text in if is_space c then words else add_letter c (at_gap text) words

-- `text.split(sep)[0]`
unfoldable pub before : ℕ → Text → Text
before sep [] = []
before sep (c ∷ text) = if c == sep then [] else c ∷ before sep text
