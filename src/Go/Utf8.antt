-- ===== src/Go/Utf8.antt =====
-- Runes: the decoding that `for _, c := range s` makes of a string, and `string(c)`. Both are in
-- the Go specification and in unicode/utf8. Shifts and masks are written as `/`, `%` and `*`.
use mfp.Base.{
  ◌≤◌, ℕ, zero, suc, ◌+◌, ◌-◌, ◌*◌, ◌/◌, ◌%◌, ◌<◌, ◌≡◌, refl, Bool, true, ◌&&◌, ◌||◌, List, [], ◌∷◌,
  ◌++◌, arith, ltb, leb, if◌then◌else◌, All, ap, ◌∙◌,
}
use mfp.Go.Text.{Text}
use native.Mathlib.Decide.{dec_lt}

-- utf8.RuneError, the rune of a byte that decodes to nothing.
abbrev pub rune_error : ℕ
rune_error = 0xfffd

-- A continuation byte.
abbrev is_cont : ℕ → Bool
is_cont b = leb 0x80 b && ltb b 0xc0

-- The runes that have an encoding: no surrogate, and none past the last code point.
abbrev pub is_rune : ℕ → Bool
is_rune c = ltb c 0xd800 || (leb 0xe000 c && ltb c 0x110000)

-- `string(c)`
unfoldable pub encode_rune : ℕ → Text
encode_rune c =
    if ltb c 0x80
    then c ∷ []
    else if ltb c 0x800
    then (0xc0 + c / 64) ∷ (0x80 + c % 64) ∷ []
    else if ltb c 0x10000
    then if is_rune c
      then (0xe0 + c / 4096) ∷ (0x80 + c / 64 % 64) ∷ (0x80 + c % 64) ∷ []
      else 0xef ∷ 0xbf ∷ 0xbd ∷ []
    else if ltb c 0x110000
    then (0xf0 + c / 262144) ∷ (0x80 + c / 4096 % 64) ∷ (0x80 + c / 64 % 64) ∷ (0x80 + c % 64) ∷ []
    else 0xef ∷ 0xbf ∷ 0xbd ∷ []

-- utf8.DecodeRuneInString on a string that begins with the byte `b`: the rune and the count of
-- bytes behind `b` that belong to it.
two : ℕ → Text → ℕ × ℕ
two b (b1 ∷ _) = if is_cont b1 then ((b - 0xc0) * 64 + (b1 - 0x80), 1) else (rune_error, 0)
two b [] = (rune_error, 0)

three : ℕ → Text → ℕ × ℕ
three b (b1 ∷ b2 ∷ _) =
    let c = (b - 0xe0) * 4096 + (b1 - 0x80) * 64 + (b2 - 0x80) in
    if is_cont b1 && is_cont b2 && leb 0x800 c && is_rune c then (c, 2) else (rune_error, 0)
three b _ = (rune_error, 0)

four : ℕ → Text → ℕ × ℕ
four b (b1 ∷ b2 ∷ b3 ∷ _) =
    let c = (b - 0xf0) * 262144 + (b1 - 0x80) * 4096 + (b2 - 0x80) * 64 + (b3 - 0x80) in
    if is_cont b1 && is_cont b2 && is_cont b3 && leb 0x10000 c && ltb c 0x110000
    then (c, 3)
    else (rune_error, 0)
four b _ = (rune_error, 0)

pub decode_rune : ℕ → Text → ℕ × ℕ
unfolding two three four
decode_rune b rest =
    if ltb b 0x80
    then (b, 0)
    else if leb 0xc2 b && ltb b 0xe0
    then two b rest
    else if leb 0xe0 b && ltb b 0xf0
    then three b rest
    else if leb 0xf0 b && ltb b 0xf5
    then four b rest
    else (rune_error, 0)

-- The runes of a string. The number counts the bytes that the last rune still covers.
pub runes_from : ℕ → Text → List ℕ
runes_from skip [] = []
runes_from (suc skip) (b ∷ rest) = runes_from skip rest
runes_from zero (b ∷ rest) = let d = decode_rune b rest in d.0 ∷ runes_from d.1 rest

unfoldable pub runes : Text → List ℕ
unfolding runes_from decode_rune
runes = runes_from 0

-- The string of the runes, `string(c)` for each one.
abbrev pub encode : List ℕ → Text
encode [] = []
encode (c ∷ cs) = encode_rune c ++ encode cs

abbrev pub IsRune : ℕ → Type 0
IsRune c = is_rune c ≡ true

one_byte :
    (c : ℕ) (rest : Text) → c < 0x80 → runes_from 0 (encode_rune c ++ rest) ≡ c ∷ runes_from 0 rest
unfolding runes_from decode_rune encode_rune
one_byte c rest h = ground arith

two_bytes :
    (c : ℕ) (rest : Text)
    → 0x80 ≤ c
    → c < 0x800
    → runes_from 0 (encode_rune c ++ rest) ≡ c ∷ runes_from 0 rest
unfolding runes_from decode_rune encode_rune
two_bytes c rest h k = ground arith

three_bytes :
    (c : ℕ) (rest : Text)
    → 0x800 ≤ c
    → c < 0x10000
    → IsRune c
    → runes_from 0 (encode_rune c ++ rest) ≡ c ∷ runes_from 0 rest
unfolding runes_from decode_rune encode_rune
three_bytes c rest h k r = ground arith

four_bytes :
    (c : ℕ) (rest : Text)
    → 0x10000 ≤ c
    → c < 0x110000
    → runes_from 0 (encode_rune c ++ rest) ≡ c ∷ runes_from 0 rest
unfolding runes_from decode_rune encode_rune
four_bytes c rest h k = ground arith

-- Reading behind an encoded rune takes the whole of it and no more.
runes_from-encode_rune :
    (c : ℕ) (rest : Text) → IsRune c → runes_from 0 (encode_rune c ++ rest) ≡ c ∷ runes_from 0 rest
runes_from-encode_rune c rest h = elim (dec_lt c 0x80) [
  | yes p ↦ one_byte c rest p
  | no p ↦ elim (dec_lt c 0x800) [
    | yes q ↦ two_bytes c rest (omega arith) q
    | no q ↦ elim (dec_lt c 0x10000) [
      | yes r ↦ three_bytes c rest (omega arith) r h
      | no r ↦ four_bytes c rest (omega arith) (ground arith)
    ]
  ]
]

-- Ranging over the string of a list of valid runes gives those runes.
pub runes-encode : (cs : List ℕ) → All IsRune cs → runes (encode cs) ≡ cs
unfolding runes
runes-encode [] h = refl
runes-encode (c ∷ cs) h =
    runes_from-encode_rune c (encode cs) h.0 ∙ ap (◌∷◌ c) (runes-encode cs h.1)

abbrev pub IsAscii : ℕ → Type 0
IsAscii c = c < 0x80

pub encode_rune_ascii : (c : ℕ) → IsAscii c → encode_rune c ≡ c ∷ []
unfolding encode_rune
encode_rune_ascii c h = ground arith

-- An ASCII string is its own list of runes.
pub runes_ascii : (s : Text) → All IsAscii s → runes s ≡ s
unfolding runes
runes_ascii [] h = refl
runes_ascii (c ∷ s) h = ground (arith, runes_ascii s h.1)

-- A rune below 128 is read from one byte.
decode_rune_ascii :
    (b : ℕ) (rest : Text) → IsAscii (decode_rune b rest).0 → decode_rune b rest ≡ (b, 0)
unfolding decode_rune two three four
decode_rune_ascii b [] h = ground arith
decode_rune_ascii b (c ∷ []) h = ground arith
decode_rune_ascii b (c ∷ d ∷ []) h = ground arith
decode_rune_ascii b (c ∷ d ∷ e ∷ rest) h = ground arith

-- A string with ASCII runes only is ASCII.
pub runes-All_ascii : (s : Text) → All IsAscii (runes s) → runes s ≡ s
unfolding runes runes_from
runes-All_ascii [] h = refl
runes-All_ascii (b ∷ rest) h =
    let e = decode_rune_ascii b rest h.0 in rw e (ap (◌∷◌ b) (runes-All_ascii rest (rw e at h.1)))
