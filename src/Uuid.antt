-- ===== src/Uuid.antt =====
-- util/uuid/uuid.go: parsing, printing and making UUIDs. A UUID is the list of its 16 bytes.

use mfp.Go.Utf8.{runes}
use mfp.Go.Text.{has_suffix, has_prefix, codes, Text}
use mfp.Base.{
  ◌-◌, ◌*◌, ◌||◌, ◌+◌, ◌&&◌, ◌%◌, drop, All, ◌≡◌, ◌==◌, ◌/◌, ◌++◌, take, ltb, leb, ◌<◌, set,
  replicate, length, if◌then◌else◌, get_elem?, Result, Option, List, true, false, ◌∷◌, some, none,
  [], err, ok, ℕ, ◌>>=◌,
}
use Prim.Native.Nat.{bit_and, bit_or}
mod Groups
pub mod RoundTrip
pub mod Fields
pub mod Accepted
pub mod Decorated
mod Tests

abbrev pub Uuid : Type 0
Uuid = List ℕ

abbrev pub IsByte : ℕ → Type 0
IsByte b = b < 256

abbrev pub IsUuid : Uuid → Type 0
IsUuid u = (length u ≡ 16) × All IsByte u

-- `NilUUID`
abbrev pub nil_uuid : Uuid
nil_uuid = replicate 16 0

pub data Error : Type 0 where
  invalid_character too_short too_long : ℕ → Error

-- The switch that strips decorations.
pub strip : Text → Text
strip s =
    if has_prefix s (codes "urn:uuid:")
    then drop 9 s
    else if has_prefix s (codes "uuid:")
    then drop 5 s
    else if has_prefix s (codes "{") && has_suffix s (codes "}")
    then take (length s - 2) (drop 1 s)
    else s

-- The value of a hexadecimal digit.
pub digit : ℕ → Option ℕ
digit c =
    if leb b'0' c && leb c b'9'
    then some (c - b'0')
    else if leb b'a' c && leb c b'f'
    then some (c - b'a' + 10)
    else if leb b'A' c && leb c b'F'
    then some (c - b'A' + 10)
    else none

abbrev pub byte_or_zero : Option ℕ → ℕ
byte_or_zero none = 0
byte_or_zero (some b) = b

-- The digit `v` at place `cnt` goes into its half of a byte; there is room for 32.
pub store : Uuid → ℕ → ℕ → Uuid
store u cnt v =
    if ltb cnt 32
    then if cnt % 2 == 0
      then set u (cnt / 2) (v * 16 % 256)
      else set u (cnt / 2) (bit_or (byte_or_zero (get_elem? u (cnt / 2))) (v % 256))
    else u

-- The loop over the runes, with its variables `uuid` and `cnt`.
pub parse_loop : Uuid → ℕ → List ℕ → Result Error (Uuid × ℕ)
unfolding store digit
parse_loop u cnt [] = ok (u, cnt)
parse_loop u cnt (c ∷ cs) = elim (c == b'-') [
  | true ↦ parse_loop u cnt cs
  | false ↦ elim (digit c) [
    | none ↦ err (invalid_character c)
    | some v ↦ parse_loop (store u cnt v) (cnt + 1) cs
  ]
]

-- The check of the count.
pub check_count : Uuid → ℕ → Result Error Uuid
check_count u cnt =
    if ltb cnt 32 then err (too_short cnt) else if ltb 32 cnt then err (too_long cnt) else ok u

abbrev pub finish : Uuid × ℕ → Result Error Uuid
finish (u, cnt) = check_count u cnt

unfoldable pub parse : Text → Result Error Uuid
unfolding strip parse_loop check_count
parse s = parse_loop nil_uuid 0 (runes (strip s)) >>= finish

-- `%.2x` of a byte: two digits in lower case.
abbrev hex_digit : ℕ → ℕ
hex_digit n = if ltb n 10 then b'0' + n else b'a' + (n - 10)

abbrev pub hex_byte : ℕ → Text
hex_byte b = hex_digit (b / 16) ∷ hex_digit (b % 16) ∷ []

abbrev pub hex_bytes : List ℕ → Text
hex_bytes [] = []
hex_bytes (b ∷ bs) = hex_byte b ++ hex_bytes bs

-- `String`, `URN`, `MarshalText` and `Microsoft`
unfoldable pub to_string : Uuid → Text
to_string u =
    hex_bytes (take 4 u)
    ++ (b'-'
        ∷ (hex_bytes (take 2 (drop 4 u))
            ++ (b'-'
                ∷ (hex_bytes (take 2 (drop 6 u))
                    ++ (b'-'
                        ∷ (hex_bytes (take 2 (drop 8 u))
                            ++ (b'-' ∷ hex_bytes (take 6 (drop 10 u)))))))))

unfoldable pub urn : Uuid → Text
urn u = codes "urn:uuid:" ++ to_string u

unfoldable pub microsoft : Uuid → Text
microsoft u = codes "{" ++ (to_string u ++ codes "}")

-- The statements that set the version and the variant.
pub stamp : ℕ → Uuid → Uuid
stamp version u =
    let v = set u 6 (bit_or (bit_and (byte_or_zero (get_elem? u 6)) 0x0f) version) in
    set v 8 (bit_or (bit_and (byte_or_zero (get_elem? v 8)) 0x3f) 0x80)

-- `RandomFrom`: `read` is what `io.ReadFull` makes of a reader, 16 bytes or an error.
unfoldable pub random_from {ℓ} : {E : Type ℓ} → Result E (List ℕ) → Result E Uuid
unfolding stamp
random_from read = read >>= λ bytes. ok (stamp 0x40 bytes)

-- `MD5` and `SHA1`: `sum` is the hash function, of at least 16 bytes.
unfoldable pub name_based : (List ℕ → List ℕ) → ℕ → Uuid → Text → Uuid
unfolding stamp
name_based sum version space name = stamp version (take 16 (sum (space ++ name)))

abbrev pub md5 : (List ℕ → List ℕ) → Uuid → Text → Uuid
md5 sum = name_based sum 0x30

abbrev pub sha1 : (List ℕ → List ℕ) → Uuid → Text → Uuid
sha1 sum = name_based sum 0x50

-- `Variant` and `Version`
pub data Variant : Type 0 where
  rfc4122 ncs microsoft_variant future : Variant

unfoldable pub variant : Uuid → Variant
variant u =
    let b = bit_and (byte_or_zero (get_elem? u 8)) 0b11100000 in
    if b == 0b10000000 || b == 0b10100000
    then rfc4122
    else if b == 0b11000000
    then microsoft_variant
    else if b == 0b11100000
    then future
    else ncs

unfoldable pub version : Uuid → ℕ
version u = byte_or_zero (get_elem? u 6) / 16
