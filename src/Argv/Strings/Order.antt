-- ===== src/Argv/Strings/Order.antt =====
-- The order of Go strings and prefixes.

use mfp.Go.Text.{text_lt, has_prefix, Text}
use mfp.Base.{arith, ◌≡◌, ◌∷◌, false, [], true, refl}

-- What lies between two strings with a prefix has the prefix too.
pub between-has_prefix :
    (p lo s hi : Text)
    → has_prefix lo p ≡ true
    → has_prefix hi p ≡ true
    → text_lt s lo ≡ false
    → text_lt hi s ≡ false
    → has_prefix s p ≡ true
between-has_prefix [] lo s hi hl hh l h = refl
between-has_prefix (c ∷ p) [] s hi hl hh l h = cc
between-has_prefix (c ∷ p) (a ∷ lo) s [] hl hh l h = cc
between-has_prefix (c ∷ p) (a ∷ lo) [] (b ∷ hi) hl hh l h = cc
between-has_prefix (c ∷ p) (a ∷ lo) (x ∷ s) (b ∷ hi) hl hh l h =
    ground (arith, between-has_prefix p lo s hi)
