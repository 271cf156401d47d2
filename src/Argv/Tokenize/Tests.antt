-- ===== src/Argv/Tokenize/Tests.antt =====
-- Runs of the tokenizer on the examples of its documentation, and its theorems at concrete lines.

use mfp.Argv.Tokenize.Pieces.{
  item_runes, Word, Piece, bare, quoted, plain, letter, hex, line_runes, pieces_runes, line_text,
  pieces_text,
}
use mfp.Argv.Tokenize.Pieces.RoundTrip.{tokenize-line, tokenize-last_word}
use mfp.Argv.Tokenize.Spaces.{tokenize_ex-tails}
use mfp.Base.{◌++◌, List, refl, true, false, [], ◌∷◌, ◌≡◌}
use mfp.Argv.Tokenize.{true, false, [], tokenize_ex, hexadecimal, octal, step, tokenize}
use mfp.Go.Text.{Text, codes}
use mfp.Go.Utf8.{encode, runes, encode_rune}
use mfp.Go.Unicode.{is_space}

tokenize_quoted :
    tokenize (codes "param1 hel\"lo wo\"rld \"param3\"")
    ≡ (codes "param1" ∷ codes "hello world" ∷ codes "param3" ∷ [], false)
unfolding tokenize step octal hexadecimal runes encode_rune is_space
tokenize_quoted = refl

tokenize_escapes : tokenize_ex (codes "\"\\x41\\102\\n\\q\" \"a\\") ≡ record {
  args = codes "AB\nq" ∷ codes "a" ∷ [];
  rest = codes "\\";
  spaces = [];
  unterminated = true;
}
unfolding tokenize step octal hexadecimal runes encode_rune is_space
tokenize_escapes = refl

-- `a"b\"c" ` and then `x"\x41"`.
abbrev sample_words : List Word
sample_words =
    record {
      pieces = bare (codes "a") ∷ quoted (plain b'b' ∷ letter b'"' ∷ plain b'c' ∷ []) ∷ [];
      gap = codes " ";
    }
    ∷ []

abbrev sample_arg : List Piece
sample_arg = bare (codes "x") ∷ quoted (hex b'4' b'1' ∷ []) ∷ []

tokenize-line_example :
    tokenize (encode (codes " " ++ line_runes sample_words)) ≡ (line_text sample_words, false)
unfolding is_space item_runes hexadecimal octal
tokenize-line_example =
    tokenize-line (codes " ") sample_words (refl, tt)
      ((((refl, tt), ((refl, (refl, (refl, tt))), tt)), (refl, tt)), tt)
      (refl, (refl, (refl, (refl, (refl, (refl, (refl, (refl, (refl, tt)))))))))

tokenize-last_word_example :
    tokenize (encode (line_runes sample_words ++ pieces_runes sample_arg))
    ≡ (line_text sample_words ++ pieces_text sample_arg ∷ [], false)
unfolding is_space item_runes hexadecimal octal
tokenize-last_word_example =
    tokenize-last_word sample_words sample_arg
      ((((refl, tt), ((refl, (refl, (refl, tt))), tt)), (refl, tt)), tt)
      ((refl, tt), ((refl, tt), tt))
      (
        refl,
        (
          refl,
          (
            refl,
            (
              refl,
              (
                refl,
                (refl, (refl, (refl, (refl, (refl, (refl, (refl, (refl, (refl, (refl, tt)))))))))),
              ),
            ),
          ),
        ),
      )

abbrev spaced : Text
spaced = codes " a b  "

tokenize_ex-tails_example :
    ((tokenize_ex spaced).unterminated ≡ false
      → ((tokenize_ex spaced).spaces ≡ encode (b' ' ∷ b' ' ∷ []))
        × ((tokenize_ex spaced).rest ≡ []))
    × ((tokenize_ex spaced).unterminated ≡ true → (tokenize_ex spaced).spaces ≡ [])
unfolding runes is_space
tokenize_ex-tails_example =
    tokenize_ex-tails spaced (b' ' ∷ b'a' ∷ b' ' ∷ b'b' ∷ []) (b' ' ∷ b' ' ∷ []) refl refl
      (refl, (refl, tt))
