-- ===== src/Data/Strings/Lines.antt =====
-- `str.splitlines`, and joining lines again.
use core_lab.Prelude.{
  ℕ, ◌≡◌, refl, ap, ◌∙◌, Bool, true, false, ◌&&◌, ◌||◌, not, List, [], ◌∷◌, ◌++◌, arith, ◌==◌, leb,
  every, All, if◌then◌else◌,
}
use core_lab.Data.Row.{Text}

-- The characters at which `splitlines` ends a line.
unfoldable pub is_line_break : ℕ → Bool
is_line_break c =
    (leb 10 c && leb c 13) || (leb 28 c && leb c 30) || ((c == 133 || c == 8232) || c == 8233)

abbrev first_is : ℕ → Text → Bool
first_is c [] = false
first_is c (x ∷ text) = x == c

abbrev push_char : ℕ → List Text → List Text
push_char c [] = (c ∷ []) ∷ []
push_char c (line ∷ lines) = (c ∷ line) ∷ lines

-- `text.splitlines()`: a carriage return before a line feed ends the line with it.
unfoldable pub splitlines : Text → List Text
unfolding is_line_break
splitlines [] = []
splitlines (c ∷ text) =
    let lines = splitlines text in
    if is_line_break c
    then if c == 13 && first_is 10 text then lines else [] ∷ lines
    else push_char c lines

-- `"\n".join(lines) + "\n"`, and nothing without lines (`_join_authorized_key_lines`).
unfoldable pub join_lines : List Text → Text
join_lines [] = []
join_lines (line ∷ lines) = line ++ 10 ∷ join_lines lines

-- No character of the text ends a line.
abbrev pub IsOneLine : Text → Type 0
IsOneLine text = every (λ c. not (is_line_break c)) text ≡ true

-- A line before a line break is the first line; a carriage return may belong to a longer one.
pub splitlines-line :
    (line rest : Text) (c : ℕ)
    → IsOneLine line
    → is_line_break c ≡ true
    → (c == 13) ≡ false
    → splitlines (line ++ c ∷ rest) ≡ line ∷ splitlines rest
unfolding splitlines
splitlines-line [] rest c h k l = ground (arith, k, l)
splitlines-line (x ∷ line) rest c h k l = ground (arith, splitlines-line line rest c)

abbrev pub AreLines : List Text → Type 0
AreLines = All IsOneLine

-- Lines without line breaks are read back as they were joined.
pub splitlines-join_lines :
    (lines : List Text) → AreLines lines → splitlines (join_lines lines) ≡ lines
unfolding join_lines splitlines
splitlines-join_lines [] h = refl
splitlines-join_lines (line ∷ lines) h =
    splitlines-line line (join_lines lines) 10 h.0 refl refl
    ∙ ap (λ rest. line ∷ rest) (splitlines-join_lines lines h.1)

-- No line that is read has a line break in it.
push_char-AreLines :
    (c : ℕ) (lines : List Text)
    → is_line_break c ≡ false
    → AreLines lines
    → AreLines (push_char c lines)
push_char-AreLines c [] h k = (ground arith, tt)
push_char-AreLines c (line ∷ lines) h k = (ground (arith, k.0), k.1)

pub splitlines-AreLines : (text : Text) → AreLines (splitlines text)
unfolding splitlines
splitlines-AreLines [] = tt
splitlines-AreLines (c ∷ text) =
    go (is_line_break c) (c == 13 && first_is 10 text) refl (splitlines-AreLines text)
  where
    go :
        (b d : Bool)
        → is_line_break c ≡ b
        → AreLines (splitlines text)
        → AreLines (
            if b
            then if d then splitlines text else [] ∷ splitlines text
            else push_char c (splitlines text))
    go true true e h = h
    go true false e h = (refl, h)
    go false d e h = push_char-AreLines c (splitlines text) e h
