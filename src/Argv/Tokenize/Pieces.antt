-- ===== src/Argv/Tokenize/Pieces.antt =====
-- The grammar of a command line after the documentation of `Tokenize`: arguments made of bare and
-- quoted pieces, with the C-like escapes inside the quotes. Octal escapes have three digits here, while
-- `Tokenize` also reads shorter ones.
use mfp.Go.Unicode.{is_space}
use mfp.Go.Utf8.{is_rune, encode_rune, encode}
use mfp.Argv.Tokenize.{is_space, hexadecimal, escape_byte}
use mfp.Go.Text.{Text}
use mfp.Base.{
  ◌%◌, ◌==◌, ◌-◌, ◌+◌, not, ◌≡◌, ◌*◌, ◌&&◌, ◌++◌, leb, [], All, ◌∷◌, ℕ, List, Bool, false, true,
  some, none,
}
mod Rounds
pub mod RoundTrip

-- One item between quotes. `letter` is a backslash before a rune that begins no number, `hex` is
-- `\xHH` and `oct` is `\OOO`.
pub data Item : Type 0 where
  plain : ℕ → Item
  letter : ℕ → Item
  hex : ℕ → ℕ → Item
  oct : ℕ → ℕ → ℕ → Item

pub data Piece : Type 0 where
  bare : List ℕ → Piece
  quoted : List Item → Piece

-- How an item is written.
unfoldable pub item_runes : Item → List ℕ
item_runes (plain c) = c ∷ []
item_runes (letter c) = b'\\' ∷ c ∷ []
item_runes (hex h l) = b'\\' ∷ b'x' ∷ h ∷ l ∷ []
item_runes (oct a b c) = b'\\' ∷ a ∷ b ∷ c ∷ []

abbrev pub items_runes : List Item → List ℕ
items_runes [] = []
items_runes (i ∷ is) = item_runes i ++ items_runes is

abbrev pub piece_runes : Piece → List ℕ
piece_runes (bare cs) = cs
piece_runes (quoted is) = b'"' ∷ (items_runes is ++ b'"' ∷ [])

abbrev pub pieces_runes : List Piece → List ℕ
pieces_runes [] = []
pieces_runes (p ∷ ps) = piece_runes p ++ pieces_runes ps

-- The value of a hexadecimal digit, 0 for another rune.
abbrev pub hex_value : ℕ → ℕ
hex_value c = elim (hexadecimal c) [ some n ↦ n | none ↦ 0 ]

abbrev pub is_hex : ℕ → Bool
is_hex c = elim (hexadecimal c) [ some n ↦ true | none ↦ false ]

abbrev pub letter_meaning : ℕ → Text
letter_meaning c = elim (escape_byte c) [ some b ↦ b ∷ [] | none ↦ encode_rune c ]

-- What an item stands for: a rune's bytes, or one byte.
unfoldable pub item_text : Item → Text
item_text (plain c) = encode_rune c
item_text (letter c) = letter_meaning c
item_text (hex h l) = (hex_value h * 16 + hex_value l) ∷ []
item_text (oct a b c) = (((a - b'0') * 64 + (b - b'0') * 8 + (c - b'0')) % 256) ∷ []

abbrev pub items_text : List Item → Text
items_text [] = []
items_text (i ∷ is) = item_text i ++ items_text is

abbrev pub piece_text : Piece → Text
piece_text (bare cs) = encode cs
piece_text (quoted is) = items_text is

abbrev pub pieces_text : List Piece → Text
pieces_text [] = []
pieces_text (p ∷ ps) = piece_text p ++ pieces_text ps

abbrev pub is_oct_digit : ℕ → Bool
is_oct_digit c = leb b'0' c && leb c b'7'

-- The runes that each item admits.
abbrev pub item_fits : Item → Bool
item_fits (plain c) = is_rune c && not (c == b'"') && not (c == b'\\')
item_fits (letter c) = is_rune c && not (c == b'x') && not (c == b'X') && not (is_oct_digit c)
item_fits (hex h l) = is_hex h && is_hex l
item_fits (oct a b c) = is_oct_digit a && is_oct_digit b && is_oct_digit c

abbrev pub bare_fits : ℕ → Bool
bare_fits c = is_rune c && not (c == b'"') && not (is_space c)

-- A bare piece is not empty.
abbrev pub PieceFits : Piece → Type 0
PieceFits (bare []) = ⊥
PieceFits (bare (c ∷ cs)) = All (λ c. bare_fits c ≡ true) (c ∷ cs)
PieceFits (quoted is) = All (λ i. item_fits i ≡ true) is

-- An argument: at least one piece, so that it is there even if its text is empty.
abbrev pub ArgFits : List Piece → Type 0
ArgFits [] = ⊥
ArgFits (p ∷ ps) = All PieceFits (p ∷ ps)

-- An argument and the space runes behind it.
pub record Word : Type 0 where
  pub pieces : List Piece
  pub gap : List ℕ

abbrev pub AllSpace : List ℕ → Type 0
AllSpace = All (λ c. is_space c ≡ true)

abbrev pub GapFits : List ℕ → Type 0
GapFits [] = ⊥
GapFits (c ∷ cs) = AllSpace (c ∷ cs)

abbrev pub WordFits : Word → Type 0
WordFits w = ArgFits w.pieces × GapFits w.gap

abbrev pub line_runes : List Word → List ℕ
line_runes [] = []
line_runes (w ∷ ws) = pieces_runes w.pieces ++ (w.gap ++ line_runes ws)

abbrev pub line_text : List Word → List Text
line_text [] = []
line_text (w ∷ ws) = pieces_text w.pieces ∷ line_text ws
