-- ===== src/Uuid/Groups.antt =====
-- util/uuid/uuid.go: the loop of `Parse` on the five groups of digits that `String` prints.
use mfp.Go.Bits.{or_nibbles}
use mfp.Uuid.{nil_uuid, hex_bytes, IsByte, hex_byte, hex_digit, store, parse_loop, digit, Uuid}
use mfp.Base.{
  sym, ok, append_assoc, length-append, append-nil, ap, ◌∙◌, ◌%◌, replicate, ◌/◌, set-behind,
  get_elem?-behind, All, ◌≤◌, ◌*◌, ◌==◌, ◌+◌, ◌++◌, arith, length, ◌≡◌, ◌<◌, ℕ, List, some, false,
  zero, [], refl, ◌∷◌, suc,
}

-- The two digits of a byte go into one place of the array.
digit-hex_digit : (n : ℕ) → n < 16 → digit (hex_digit n) ≡ some n
unfolding digit
digit-hex_digit n h = ground arith

hex_digit-ne-dash : (n : ℕ) → n < 16 → (hex_digit n == b'-') ≡ false
hex_digit-ne-dash n h = ground arith

parse_some :
    (u : Uuid) (cnt c n : ℕ) (rest : List ℕ)
    → (c == b'-') ≡ false
    → digit c ≡ some n
    → parse_loop u cnt (c ∷ rest) ≡ parse_loop (store u cnt n) (cnt + 1) rest
unfolding parse_loop
parse_some u cnt c n rest e d = rw (e, d, parse_loop)

parse_digit :
    (u : Uuid) (cnt n : ℕ) (rest : List ℕ)
    → n < 16
    → parse_loop u cnt (hex_digit n ∷ rest) ≡ parse_loop (store u cnt n) (cnt + 1) rest
parse_digit u cnt n rest h =
    parse_some u cnt (hex_digit n) n rest (hex_digit-ne-dash n h) (digit-hex_digit n h)

parse_dash :
    (u : Uuid) (cnt : ℕ) (rest : List ℕ) → parse_loop u cnt (b'-' ∷ rest) ≡ parse_loop u cnt rest
unfolding parse_loop
parse_dash u cnt rest = refl

store_high :
    (D rest : Uuid) (y k h : ℕ)
    → k ≡ length D
    → k < 16
    → h < 16
    → store (D ++ y ∷ rest) (2 * k) h ≡ D ++ (h * 16) ∷ rest
unfolding store
store_high D rest y k h e lt hh = ground (arith, set-behind D y (h * 16) rest k e)

store_low :
    (D rest : Uuid) (k h l : ℕ)
    → k ≡ length D
    → k < 16
    → h < 16
    → l < 16
    → store (D ++ (h * 16) ∷ rest) (2 * k + 1) l ≡ D ++ (h * 16 + l) ∷ rest
unfolding store
store_low D rest k h l e lt hh hl = ground (
  arith,
  get_elem?-behind D (h * 16) rest k e,
  or_nibbles h l hh hl,
  set-behind D (h * 16) (h * 16 + l) rest k e,
)

parse_byte :
    (D zeros : Uuid) (y k b : ℕ) (rest : List ℕ)
    → k ≡ length D
    → k < 16
    → b < 256
    → parse_loop (D ++ y ∷ zeros) (2 * k) (hex_byte b ++ rest)
      ≡ parse_loop (D ++ b ∷ zeros) (2 * (k + 1)) rest
parse_byte D zeros y k b rest e lt hb =
    let h : b / 16 < 16 = omega arith in
    let l : b % 16 < 16 = omega arith in
    let v : b / 16 * 16 + b % 16 ≡ b = omega arith in
    let c : 2 * k + 1 + 1 ≡ 2 * (k + 1) = omega arith in
    parse_digit (D ++ y ∷ zeros) (2 * k) (b / 16) (hex_digit (b % 16) ∷ rest) h
    ∙ ap (λ u. parse_loop u (2 * k + 1) (hex_digit (b % 16) ∷ rest))
        (store_high D zeros y k (b / 16) e lt h)
    ∙ parse_digit (D ++ (b / 16 * 16) ∷ zeros) (2 * k + 1) (b % 16) rest l
    ∙ ap (λ u. parse_loop u (2 * k + 1 + 1) rest) (store_low D zeros k (b / 16) (b % 16) e lt h l)
    ∙ rw (v, c)

-- A group of bytes, with `n` places left behind it.
parse_group :
    (bs : List ℕ) (D : Uuid) (k n : ℕ) (rest : List ℕ)
    → k ≡ length D
    → k + length bs ≤ 16
    → All IsByte bs
    → parse_loop (D ++ replicate (length bs + n) 0) (2 * k) (hex_bytes bs ++ rest)
      ≡ parse_loop ((D ++ bs) ++ replicate n 0) (2 * (k + length bs)) rest
parse_group [] D k n rest e lt h =
    let a : zero + n ≡ n = omega arith in
    let b : k + zero ≡ k = omega arith in rw (a, b, append-nil)
parse_group (b ∷ bs) D k n rest e lt h =
    let a : suc (length bs) + n ≡ suc (length bs + n) = omega arith in
    let c : k + suc (length bs) ≡ k + 1 + length bs = omega arith in
    let ih =
      parse_group bs (D ++ b ∷ []) (k + 1) n rest (omega (arith, length-append D (b ∷ [])))
        (omega arith) h.1 in
    rw (a, c)
      (parse_byte D (replicate (length bs + n) 0) 0 k b (hex_bytes bs ++ rest) e (omega arith) h.0
        ∙ (simp append_assoc at ih)
        ∙ rw append_assoc)

-- A group and the dash behind it.
parse_group_dash :
    (bs : List ℕ) (D : Uuid) (k n : ℕ) (rest : List ℕ)
    → k ≡ length D
    → k + length bs ≤ 16
    → All IsByte bs
    → parse_loop (D ++ replicate (length bs + n) 0) (2 * k) (hex_bytes bs ++ b'-' ∷ rest)
      ≡ parse_loop ((D ++ bs) ++ replicate n 0) (2 * (k + length bs)) rest
parse_group_dash bs D k n rest e lt h =
    parse_group bs D k n (b'-' ∷ rest) e lt h
    ∙ parse_dash ((D ++ bs) ++ replicate n 0) (2 * (k + length bs)) rest

parse_end : (u : Uuid) (cnt : ℕ) → parse_loop u cnt [] ≡ ok (u, cnt)
unfolding parse_loop
parse_end u cnt = refl

-- The five groups one after the other.
pub parse_groups :
    (a b c d e : List ℕ)
    → length a ≡ 4
    → length b ≡ 2
    → length c ≡ 2
    → length d ≡ 2
    → length e ≡ 6
    → All IsByte a
    → All IsByte b
    → All IsByte c
    → All IsByte d
    → All IsByte e
    → parse_loop nil_uuid 0 (
        hex_bytes a
        ++ b'-'
          ∷ (hex_bytes b ++ b'-' ∷ (hex_bytes c ++ b'-' ∷ (hex_bytes d ++ b'-' ∷ hex_bytes e))))
      ≡ ok (a ++ (b ++ (c ++ (d ++ e))), 32)
parse_groups a b c d e la lb lc ld le ha hb hc hd he =
    let r4 = hex_bytes e in
    let r3 = hex_bytes d ++ b'-' ∷ r4 in
    let r2 = hex_bytes c ++ b'-' ∷ r3 in
    let r1 = hex_bytes b ++ b'-' ∷ r2 in
    let g1 = rw la at (parse_group_dash a [] 0 12 r1 refl (omega arith) ha) in
    let n4 : 4 ≡ length a = sym la in
    let g2 = rw lb at (parse_group_dash b a 4 10 r2 n4 (omega arith) hb) in
    let n6 : 6 ≡ length (a ++ b) = omega (arith, length-append a b) in
    let g3 = rw lc at (parse_group_dash c (a ++ b) 6 8 r3 n6 (omega arith) hc) in
    let n8 : 8 ≡ length ((a ++ b) ++ c) = omega (arith, length-append (a ++ b) c, n6) in
    let g4 = rw ld at (parse_group_dash d ((a ++ b) ++ c) 8 6 r4 n8 (omega arith) hd) in
    let n10 : 10 ≡ length (((a ++ b) ++ c) ++ d) =
      omega (arith, length-append ((a ++ b) ++ c) d, n8) in
    let g5 = rw le at (parse_group e (((a ++ b) ++ c) ++ d) 10 0 [] n10 (omega arith) he) in
    let last : parse_loop ((((a ++ b) ++ c) ++ d) ++ replicate 6 0) 20 r4
        ≡ parse_loop ((((a ++ b) ++ c) ++ d) ++ e) 32 [] =
      simp append-nil at g5 in
    g1 ∙ g2 ∙ g3 ∙ g4 ∙ last ∙ parse_end ((((a ++ b) ++ c) ++ d) ++ e) 32 ∙ simp append_assoc
