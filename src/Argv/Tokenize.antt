-- ===== src/Argv/Tokenize.antt =====
-- argv/tokenize.go: `TokenizeEx`, a state machine over the runes of a line, and `Tokenize`.
use mfp.Base.{
  ◌+◌, ◌-◌, ◌||◌, ◌*◌, ◌&&◌, none, ◌∷◌, ◌==◌, ◌%◌, true, some, leb, ◌++◌, if◌then◌else◌, false, [],
  Option, List, Bool,
}
pub mod Pieces
pub mod Invariant
pub mod Spaces
mod Tests
use Prim.Native.Nat.{ℕ, bit_or}
use mfp.Go.Text.{Text}
use mfp.Go.Utf8.{runes, encode_rune}
use mfp.Go.Unicode.{is_space}

-- The constants `tkSpace` to `tkOct2`.
pub data TkState : Type 0 where
  tk_space tk_word tk_quote tk_quote_bs tk_hex1 tk_hex2 tk_oct1 tk_oct2 : TkState

-- The variables of `TokenizeEx`.
pub record Tokenizer : Type 0 where
  pub state : TkState
  pub token : Text
  pub acc : ℕ
  pub argv : List Text
  pub tail : Text
  pub tailspc : Text

-- The numerical value of a digit; `none` stands for -1.
unfoldable pub octal : ℕ → Option ℕ
octal c = if leb b'0' c && leb c b'9' then some (c - b'0') else none

unfoldable pub hexadecimal : ℕ → Option ℕ
hexadecimal c =
    if leb b'0' c && leb c b'9'
    then some (c - b'0')
    else if leb b'a' c && leb c b'f'
    then some (c - b'a' + 10)
    else if leb b'A' c && leb c b'F'
    then some (c - b'A' + 10)
    else none

-- `token += string(c)`, `token += string([]byte{byte(n)})` and `tail += string(c)`
abbrev pub push : Tokenizer → ℕ → Tokenizer
push t c = record t { token = t.token ++ encode_rune c }

abbrev pub push_byte : Tokenizer → ℕ → Tokenizer
push_byte t n = record t { token = t.token ++ (n % 256) ∷ [] }

abbrev pub push_tail : Tokenizer → ℕ → Tokenizer
push_tail t c = record t { tail = t.tail ++ encode_rune c }

-- `case tkSpace, tkWord`; the flag is `state != tkSpace`.
step_word : Bool → Tokenizer → ℕ → Tokenizer
step_word inside t c =
    if c == b'"'
    then record t { state = tk_quote }
    else if is_space c
    then if inside
      then record t { argv = t.argv ++ t.token ∷ []; token = []; state = tk_space }
      else t
    else push (record t { state = tk_word }) c

step_quote : Tokenizer → ℕ → Tokenizer
step_quote t c =
    if c == b'\\'
    then push_tail (record t { state = tk_quote_bs }) c
    else if c == b'"'
    then record t { state = tk_word }
    else push t c

-- The characters that a one-letter escape may stand for.
unfoldable pub escape_byte : ℕ → Option ℕ
escape_byte c =
    if c == b'a'
    then some 7
    else if c == b'b'
    then some 8
    else if c == b'f'
    then some 12
    else if c == b'n'
    then some 10
    else if c == b'r'
    then some 13
    else if c == b't'
    then some 9
    else if c == b'v'
    then some 11
    else none

-- `case tkQuoteBs`, behind the backslash.
step_quote_bs : Tokenizer → ℕ → Tokenizer
unfolding escape_byte
step_quote_bs t c =
    if c == b'x' || c == b'X'
    then record t { acc = 0; state = tk_hex1 }
    else if leb b'0' c && leb c b'7'
    then record t { acc = c - b'0'; state = tk_oct1 }
    else elim (escape_byte c) [
      | some b ↦ push_byte (record t { state = tk_quote }) b
      | none ↦ push (record t { state = tk_quote }) c
    ]

-- A numeric escape that ends before its last digit.
end_number : Tokenizer → ℕ → Tokenizer
end_number t c =
    let u = push_byte t t.acc in
    if c == b'"' then record u { state = tk_word } else push (record u { state = tk_quote }) c

-- `case tkHex1, tkHex2` and `case tkOct1, tkOct2`: the flag tells the first of the two, `next` is
-- the second.
step_digit : Bool → TkState → ℕ → Option ℕ → Tokenizer → ℕ → Tokenizer
unfolding end_number
step_digit first next radix (some n) t c =
    let u = record t { acc = bit_or (t.acc * radix) n } in
    if first then record u { state = next } else push_byte (record u { state = tk_quote }) u.acc
step_digit first next radix none t c = end_number t c

-- The switch over the state.
pub step_in : TkState → Tokenizer → ℕ → Tokenizer
unfolding step_word step_quote step_quote_bs step_digit
step_in tk_space t c = step_word false t c
step_in tk_word t c = step_word true t c
step_in tk_quote t c = step_quote t c
step_in tk_quote_bs t c = step_quote_bs (push_tail t c) c
step_in tk_hex1 t c = step_digit true tk_hex2 16 (hexadecimal c) (push_tail t c) c
step_in tk_hex2 t c = step_digit false tk_hex2 16 (hexadecimal c) (push_tail t c) c
step_in tk_oct1 t c = step_digit true tk_oct2 8 (octal c) (push_tail t c) c
step_in tk_oct2 t c = step_digit false tk_oct2 8 (octal c) (push_tail t c) c

-- The statements behind the switch: `tail` is kept inside an escape only, `tailspc` outside
-- tokens only.
abbrev drop_tail : TkState → Text → Text
drop_tail tk_space s = []
drop_tail tk_word s = []
drop_tail tk_quote s = []
drop_tail _ s = s

abbrev drop_tailspc : TkState → Text → Text
drop_tailspc tk_space s = s
drop_tailspc _ s = []

abbrev pub settle : Tokenizer → Tokenizer
settle t = record t { tail = drop_tail t.state t.tail; tailspc = drop_tailspc t.state t.tailspc }

-- One round of the loop.
unfoldable pub step : Tokenizer → ℕ → Tokenizer
unfolding step_in
step t c =
    let u = if is_space c then record t { tailspc = t.tailspc ++ encode_rune c } else t in
    settle (step_in t.state u c)

pub run : Tokenizer → List ℕ → Tokenizer
run t [] = t
run t (c ∷ cs) = run (step t c) cs

abbrev pub initial : Tokenizer
initial = record { state = tk_space; token = []; acc = 0; argv = []; tail = []; tailspc = [] }

-- Whether the line ends inside a quoted string (`errUntermString`), and the last token.
abbrev pub is_unterminated : TkState → Bool
is_unterminated tk_space = false
is_unterminated tk_word = false
is_unterminated _ = true

abbrev pub last_token : TkState → Text → List Text
last_token tk_space token = []
last_token _ token = token ∷ []

-- The four results: the arguments, `tail`, `tailspc` and whether there is an error.
pub record Tokens : Type 0 where
  pub args : List Text
  pub rest : Text
  pub spaces : Text
  pub unterminated : Bool

pub finish : Tokenizer → Tokens
finish t = record {
  args = t.argv ++ last_token t.state t.token;
  rest = t.tail;
  spaces = t.tailspc;
  unterminated = is_unterminated t.state;
}

unfoldable pub tokenize_ex : Text → Tokens
unfolding run finish
tokenize_ex line = finish (run initial (runes line))

unfoldable pub tokenize : Text → List Text × Bool
unfolding tokenize_ex
tokenize line = let t = tokenize_ex line in (t.args, t.unterminated)
