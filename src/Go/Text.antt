-- ===== src/Go/Text.antt =====
-- Go strings: lists of bytes, with the tests and slices that the program makes of them.
use Prim.Native.Char.{code}
use Prim.Native.String.{String}
use mfp.Base.{
  ℕ, ◌-◌, ◌≡◌, refl, ◌↔◌, Bool, true, false, ◌&&◌, ◌||◌, List, [], ◌∷◌, ◌++◌, arith, ltb, leb, ◌==◌,
  length, drop,
}

abbrev pub Text : Type 0
Text = List ℕ

-- A string literal of the source, which is ASCII.
abbrev pub codes : String → Text
codes String.[] = []
codes (String.◌∷◌ c s) = code c ∷ codes s

-- `s == t`
abbrev pub text_eq : Text → Text → Bool
text_eq [] [] = true
text_eq [] (y ∷ ys) = false
text_eq (x ∷ xs) [] = false
text_eq (x ∷ xs) (y ∷ ys) = x == y && text_eq xs ys

-- `strings.HasPrefix(s, p)`
abbrev pub has_prefix : Text → Text → Bool
has_prefix s [] = true
has_prefix [] (p ∷ ps) = false
has_prefix (c ∷ s) (p ∷ ps) = c == p && has_prefix s ps

-- `strings.HasSuffix(s, t)`
abbrev pub has_suffix : Text → Text → Bool
has_suffix s t = leb (length t) (length s) && text_eq (drop (length s - length t) s) t

-- `s < t`
abbrev pub text_lt : Text → Text → Bool
text_lt xs [] = false
text_lt [] (y ∷ ys) = true
text_lt (x ∷ xs) (y ∷ ys) = ltb x y || (x == y && text_lt xs ys)

pub text_eq_iff : (s t : Text) → (text_eq s t ≡ true) ↔ (s ≡ t)
text_eq_iff [] [] = (λ _. refl, λ _. refl)
text_eq_iff [] (y ∷ ys) = ground arith
text_eq_iff (x ∷ xs) [] = ground arith
text_eq_iff (x ∷ xs) (y ∷ ys) = ground (arith, text_eq_iff xs ys)

pub text_eq_refl : (s : Text) → text_eq s s ≡ true
text_eq_refl s = (text_eq_iff s s).1 refl

pub has_prefix-append : (p s : Text) → has_prefix (p ++ s) p ≡ true
has_prefix-append [] s = refl
has_prefix-append (c ∷ p) s = ground (arith, has_prefix-append p s)

pub has_prefix_refl : (s : Text) → has_prefix s s ≡ true
has_prefix_refl [] = refl
has_prefix_refl (c ∷ s) = ground (arith, has_prefix_refl s)

-- A prefix is the front of the text that `s[len(p):]` completes.
pub has_prefix-split : (s p : Text) → has_prefix s p ≡ true → p ++ drop (length p) s ≡ s
has_prefix-split s [] h = refl
has_prefix-split [] (c ∷ p) h = cc
has_prefix-split (d ∷ s) (c ∷ p) h = ground (arith, has_prefix-split s p)

-- Whether a byte occurs.
abbrev pub contains_byte : Text → ℕ → Bool
contains_byte [] c = false
contains_byte (b ∷ s) c = b == c || contains_byte s c
