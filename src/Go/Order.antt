-- ===== src/Go/Order.antt =====
-- The order of Go strings, byte by byte.

use mfp.Go.Text.{text_lt, Text}
use mfp.Base.{arith, ◌≡◌, [], false, ◌∷◌, refl, true}

pub text_lt_irrefl : (s : Text) → text_lt s s ≡ false
text_lt_irrefl [] = refl
text_lt_irrefl (b ∷ s) = ground (arith, text_lt_irrefl s)

pub text_lt_asymm : (s t : Text) → text_lt s t ≡ true → text_lt t s ≡ false
text_lt_asymm [] [] h = refl
text_lt_asymm [] (c ∷ t) h = refl
text_lt_asymm (b ∷ s) [] h = cc
text_lt_asymm (b ∷ s) (c ∷ t) h = ground (arith, text_lt_asymm s t)

pub text_lt_trans : (s t u : Text) → text_lt s t ≡ true → text_lt t u ≡ true → text_lt s u ≡ true
text_lt_trans [] [] u h k = cc
text_lt_trans [] (c ∷ t) [] h k = cc
text_lt_trans [] (c ∷ t) (d ∷ u) h k = refl
text_lt_trans (b ∷ s) [] u h k = cc
text_lt_trans (b ∷ s) (c ∷ t) [] h k = cc
text_lt_trans (b ∷ s) (c ∷ t) (d ∷ u) h k = ground (arith, text_lt_trans s t u)

-- Of two different strings one is below the other.
pub text_lt_total : (s t : Text) → text_lt s t ≡ false → text_lt t s ≡ false → s ≡ t
text_lt_total [] [] h k = refl
text_lt_total [] (c ∷ t) h k = cc
text_lt_total (b ∷ s) [] h k = cc
text_lt_total (b ∷ s) (c ∷ t) h k = ground (arith, text_lt_total s t)
