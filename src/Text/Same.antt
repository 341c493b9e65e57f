-- ===== src/Text/Same.antt =====
-- Equality of texts by its test.
use codeberg.Text.{Text, same_text}
use codeberg.Base.{◌≡◌, true, [], ◌∷◌, arith, refl}

pub same_text_refl : (t : Text) → same_text t t ≡ true
same_text_refl [] = refl
same_text_refl (c ∷ t) = ground (arith, same_text_refl t)

pub eq_of_same_text : (s t : Text) → same_text s t ≡ true → s ≡ t
eq_of_same_text [] [] h = refl
eq_of_same_text (a ∷ s) (b ∷ t) h = ground (arith, eq_of_same_text s t)
eq_of_same_text [] (b ∷ t) h = absurd (cc)
eq_of_same_text (a ∷ s) [] h = absurd (cc)
