-- ===== src/Argv/Tokenize/Pieces/Rounds.antt =====
-- The rounds of `TokenizeEx` (argv/tokenize.go) on the runes of one item, and at the ends of pieces and words.
use mfp.Go.Bits.{or_octal, or_nibbles}
use mfp.Go.Utf8.{encode_rune}
use mfp.Go.Unicode.{is_space}
use mfp.Go.Text.{Text}
use mfp.Base.{◌⊎◌, ◌-◌, ◌+◌, ◌*◌, ◌∷◌, ◌++◌, [], arith, ◌≡◌, ◌<◌, List, ℕ, true, some}
use mfp.Argv.Tokenize.Pieces.{
  bare_fits, item_text, oct, letter_meaning, item_fits, is_hex, hex_value, plain, letter,
}
use mfp.Argv.Tokenize.{
  tk_space, tk_word, octal, run, encode_rune, [], Tokenizer, is_space, List, escape_byte, Text, ℕ,
  step, hexadecimal, TkState, tk_quote,
}

-- A state outside of any escape.
abbrev pub at : TkState → Text → ℕ → List Text → Text → Tokenizer
at m token acc argv spc = record {
  state = m;
  token = token;
  acc = acc;
  argv = argv;
  tail = [];
  tailspc = spc;
}

pub step-plain :
    (c : ℕ) (token : Text) (acc : ℕ) (argv : List Text)
    → item_fits (plain c) ≡ true
    → step (at tk_quote token acc argv []) c ≡ at tk_quote (token ++ encode_rune c) acc argv []
unfolding step
step-plain c token acc argv h = ground arith

pub step-letter :
    (c : ℕ) (token : Text) (acc : ℕ) (argv : List Text)
    → item_fits (letter c) ≡ true
    → step (step (at tk_quote token acc argv []) b'\\') c
      ≡ at tk_quote (token ++ letter_meaning c) acc argv []
unfolding step escape_byte is_space
step-letter c token acc argv h = ground arith

hex_value-lt : (c : ℕ) → hex_value c < 16
unfolding hexadecimal
hex_value-lt c = ground arith

hex_value-some : (c : ℕ) → is_hex c ≡ true → hexadecimal c ≡ some (hex_value c)
hex_value-some c h = ground arith

-- The three rounds of `\x` and the first digit, and the round of the second one.
pub step-hex :
    (h l : ℕ) (token : Text) (acc : ℕ) (argv : List Text) (rest : List ℕ)
    → is_hex h ≡ true
    → is_hex l ≡ true
    → run (at tk_quote token acc argv []) (b'\\' ∷ b'x' ∷ h ∷ l ∷ rest)
      ≡ run
          (at tk_quote
            (token ++ (hex_value h * 16 + hex_value l) ∷ [])
            (hex_value h * 16 + hex_value l)
            argv
            [])
          rest
unfolding run step is_space
step-hex h l token acc argv rest hh hl = ground (
  arith,
  hex_value-some h hh,
  hex_value-some l hl,
  hex_value-lt h,
  hex_value-lt l,
  or_nibbles 0 (hex_value h),
  or_nibbles (hex_value h) (hex_value l),
)

pub step-oct :
    (a b c : ℕ) (token : Text) (acc : ℕ) (argv : List Text) (rest : List ℕ)
    → item_fits (oct a b c) ≡ true
    → run (at tk_quote token acc argv []) (b'\\' ∷ a ∷ b ∷ c ∷ rest)
      ≡ run
          (at tk_quote
            (token ++ item_text (oct a b c))
            ((a - b'0') * 64 + (b - b'0') * 8 + (c - b'0'))
            argv
            [])
          rest
unfolding run step is_space octal item_text
step-oct a b c token acc argv rest h =
    ground
      (arith, or_octal (a - b'0') (b - b'0'), or_octal ((a - b'0') * 8 + (b - b'0')) (c - b'0'))

abbrev pub IsOutside : TkState → Type 0
IsOutside m = (m ≡ tk_space) ⊎ (m ≡ tk_word)

pub step-bare :
    (m : TkState) (c : ℕ) (token : Text) (acc : ℕ) (argv : List Text) (spc : Text)
    → IsOutside m
    → bare_fits c ≡ true
    → step (at m token acc argv spc) c ≡ at tk_word (token ++ encode_rune c) acc argv []
unfolding step
step-bare m c token acc argv spc o h = ground arith

pub step-open :
    (m : TkState) (token : Text) (acc : ℕ) (argv : List Text) (spc : Text)
    → IsOutside m
    → step (at m token acc argv spc) b'"' ≡ at tk_quote token acc argv []
unfolding step is_space
step-open m token acc argv spc o = ground arith

pub step-close :
    (token : Text) (acc : ℕ) (argv : List Text)
    → step (at tk_quote token acc argv []) b'"' ≡ at tk_word token acc argv []
unfolding step is_space
step-close token acc argv = ground arith

pub step-space :
    (c acc : ℕ) (argv : List Text) (spc : Text)
    → is_space c ≡ true
    → step (at tk_space [] acc argv spc) c ≡ at tk_space [] acc argv (spc ++ encode_rune c)
unfolding step is_space
step-space c acc argv spc h = ground arith

pub step-end_word :
    (c acc : ℕ) (token : Text) (argv : List Text)
    → is_space c ≡ true
    → step (at tk_word token acc argv []) c
      ≡ at tk_space [] acc (argv ++ token ∷ []) (encode_rune c)
unfolding step is_space
step-end_word c acc token argv h = ground arith
