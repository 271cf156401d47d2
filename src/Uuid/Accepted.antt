-- ===== src/Uuid/Accepted.antt =====
-- util/uuid/uuid.go: the strings that `Parse` accepts, and what it makes of them.

use mfp.Argv.Model.{is_some}
use mfp.Go.Utf8.{runes}
use mfp.Go.Text.{Text}
use mfp.Uuid.{
  invalid_character, nil_uuid, strip, byte_or_zero, finish, IsByte, IsUuid, store, parse_loop,
  parse, digit, check_count, Uuid,
}
use mfp.Base.{
  none, false, err, ◌∙◌, length-set, ◌/◌, ◌%◌, get_elem?, ◌||◌, ◌+◌, ◌&&◌, set, ltb, Option-cases,
  ◌>>=◌, ◌==◌, ◌*◌, arith, Ends-ok, Ends, Bool-cases, ◌≡◌, ◌<◌, is_ok, if◌then◌else◌, Bool, All, ℕ,
  List, [], inl, inr, zero, suc, ◌∷◌, ok, refl, some, true,
}
use Prim.Native.Nat.{bit_or}
use mfp.Go.Bits.{same_below, same_below_lem}

-- Only dashes and hexadecimal digits.
abbrev pub is_clean : List ℕ → Bool
is_clean [] = true
is_clean (c ∷ cs) = (c == b'-' || is_some (digit c)) && is_clean cs

abbrev pub count_digits : List ℕ → ℕ
count_digits [] = 0
count_digits (c ∷ cs) = (if c == b'-' then 0 else 1) + count_digits cs

finish_iff : (u : Uuid) (cnt : ℕ) → is_ok (finish (u, cnt)) ≡ (cnt == 32)
unfolding check_count
finish_iff u cnt = ground arith

-- The three cases of a round.
at_dash :
    (u : Uuid) (cnt c : ℕ) (cs : List ℕ)
    → (c == b'-') ≡ true
    → parse_loop u cnt (c ∷ cs) ≡ parse_loop u cnt cs
unfolding parse_loop
at_dash u cnt c cs e = ground arith

at_other :
    (u : Uuid) (cnt c : ℕ) (cs : List ℕ)
    → (c == b'-') ≡ false
    → digit c ≡ none
    → parse_loop u cnt (c ∷ cs) ≡ err (invalid_character c)
unfolding parse_loop
at_other u cnt c cs e d = ground arith

at_digit :
    (u : Uuid) (cnt c v : ℕ) (cs : List ℕ)
    → (c == b'-') ≡ false
    → digit c ≡ some v
    → parse_loop u cnt (c ∷ cs) ≡ parse_loop (store u cnt v) (cnt + 1) cs
unfolding parse_loop
at_digit u cnt c v cs e d = ground arith

loop_iff :
    (cs : List ℕ) (u : Uuid) (cnt : ℕ)
    → is_ok (parse_loop u cnt cs >>= finish) ≡ (is_clean cs && (cnt + count_digits cs == 32))
loop_iff [] u cnt =
    let e : cnt + 0 ≡ cnt = omega arith in unfold parse_loop in rw e (finish_iff u cnt)
loop_iff (c ∷ cs) u cnt = elim (Bool-cases (c == b'-')) [
  | inl e ↦
      let z : 0 + count_digits cs ≡ count_digits cs = omega arith in
      rw (at_dash u cnt c cs e, e, z) (loop_iff cs u cnt)
  | inr e ↦ elim (Option-cases (digit c)) [
    | inl d ↦ rw (at_other u cnt c cs e d, e, d) refl
    | inr (v, d) ↦
        let s : cnt + (1 + count_digits cs) ≡ cnt + 1 + count_digits cs = omega arith in
        rw (at_digit u cnt c v cs e d, e, d, s) (loop_iff cs (store u cnt v) (cnt + 1))
  ]
]

-- In terms of what strip leaves.
pub is_ok-parse :
    (s : Text)
    → is_ok (parse s) ≡ (is_clean (runes (strip s)) && (count_digits (runes (strip s)) == 32))
unfolding parse
is_ok-parse s =
    let n = count_digits (runes (strip s)) in
    let z : 0 + n ≡ n = omega arith in rw z at (loop_iff (runes (strip s)) nil_uuid 0)

or_byte : (b v : ℕ) → b < 256 → v < 16 → bit_or b v < 256
unfolding same_below
or_byte b v hb hv =
    let e : (b * 16 + v) / 16 ≡ b = omega arith in
    let m : (b * 16 + v) % 16 ≡ v = omega arith in
    let t =
      same_below_lem (λ n. bit_or (n / 16) (n % 16) / 256) (λ n. 0) 4096 refl (b * 16 + v)
        (omega arith) in
    let z : bit_or b v / 256 ≡ 0 = rw (e, m) at t in omega arith

digit-bound : (c v : ℕ) → digit c ≡ some v → v < 16
unfolding digit
digit-bound c v h = ground arith

All-set : (u : Uuid) (i b : ℕ) → All IsByte u → b < 256 → All IsByte (set u i b)
All-set [] i b h k = tt
All-set (x ∷ xs) zero b h k = (k, h.1)
All-set (x ∷ xs) (suc i) b h k = (h.0, All-set xs i b h.1 k)

byte_or_zero-IsByte : (u : Uuid) (i : ℕ) → All IsByte u → IsByte (byte_or_zero (get_elem? u i))
byte_or_zero-IsByte [] i h = omega arith
byte_or_zero-IsByte (b ∷ bs) zero h = h.0
byte_or_zero-IsByte (b ∷ bs) (suc i) h = byte_or_zero-IsByte bs i h.1

store-IsUuid : (u : Uuid) (cnt v : ℕ) → IsUuid u → v < 16 → IsUuid (store u cnt v)
unfolding store
store-IsUuid u cnt v (n, h) k = elim (Bool-cases (ltb cnt 32)) [
  | inr e ↦ rw e (n, h)
  | inl e ↦ elim (Bool-cases (cnt % 2 == 0)) [
    | inl f ↦ rw (e, f) (length-set u (cnt / 2) _ ∙ n, All-set u (cnt / 2) _ h (omega arith))
    | inr f ↦
        let m : v % 256 ≡ v = omega arith in
        rw (e, f, m)
          (
            length-set u (cnt / 2) _ ∙ n,
            All-set u (cnt / 2) _ h (or_byte _ v (byte_or_zero-IsByte u (cnt / 2) h) k),
          )
  ]
]

loop-IsUuid :
    (cs : List ℕ) (u : Uuid) (cnt : ℕ) → IsUuid u → Ends (parse_loop u cnt cs >>= finish) IsUuid
loop-IsUuid [] u cnt h = unfold parse_loop check_count in ground arith
loop-IsUuid (c ∷ cs) u cnt h = elim (Bool-cases (c == b'-')) [
  | inl e ↦ rw (at_dash u cnt c cs e) (loop-IsUuid cs u cnt h)
  | inr e ↦ elim (Option-cases (digit c)) [
    | inl d ↦ rw (at_other u cnt c cs e d) tt
    | inr (v, d) ↦
        rw (at_digit u cnt c v cs e d)
          (loop-IsUuid cs (store u cnt v) (cnt + 1) (store-IsUuid u cnt v h (digit-bound c v d)))
  ]
]

-- What `Parse` returns without an error is 16 bytes.
pub parse-IsUuid : (s : Text) (u : Uuid) → parse s ≡ ok u → IsUuid u
unfolding parse
parse-IsUuid s u h =
    Ends-ok (parse s) IsUuid u (loop-IsUuid (runes (strip s)) nil_uuid 0 (refl, ground arith)) h
