-- ===== src/Data/Strings/Equal.antt =====
-- The test of equality of texts.
use core_lab.Prelude.{◌≡◌, refl, true, [], ◌∷◌, arith}
use core_lab.Data.Row.{Text}
use core_lab.Data.Strings.{text_eq}

pub text_eq_sound : (a b : Text) → text_eq a b ≡ true → a ≡ b
unfolding text_eq
text_eq_sound [] [] h = refl
text_eq_sound [] (y ∷ b) h = cc
text_eq_sound (x ∷ a) [] h = cc
text_eq_sound (x ∷ a) (y ∷ b) h = ground (arith, text_eq_sound a b)

pub text_eq_refl : (a : Text) → text_eq a a ≡ true
unfolding text_eq
text_eq_refl [] = refl
text_eq_refl (x ∷ a) = ground (arith, text_eq_refl a)
