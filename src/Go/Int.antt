-- ===== src/Go/Int.antt =====
-- Go's `int`, of 64 bits: its order, and the sums and differences that wrap around.

use mfp.Base.{◌/◌, ◌^◌, ◌-◌, ◌≤◌, ◌==◌, ◌%◌, ltb, leb, if◌then◌else◌, ◌+◌, ℕ, Bool, suc}

-- `negsuc n` is -(n + 1).
pub data ℤ : Type 0 where
  pos : ℕ → ℤ
  negsuc : ℕ → ℤ

abbrev pub pos_part : ℤ → ℕ
pos_part (pos n) = n
pos_part (negsuc n) = 0

abbrev pub neg_part : ℤ → ℕ
neg_part (pos n) = 0
neg_part (negsuc n) = suc n

-- `a < b`, `a <= b`, `a == b`
abbrev pub int_lt : ℤ → ℤ → Bool
int_lt a b = ltb (pos_part a + neg_part b) (pos_part b + neg_part a)

abbrev pub int_le : ℤ → ℤ → Bool
int_le a b = leb (pos_part a + neg_part b) (pos_part b + neg_part a)

abbrev pub int_eq : ℤ → ℤ → Bool
int_eq a b = pos_part a + neg_part b == pos_part b + neg_part a

infix 4 ◌≤ℤ◌
abbrev pub ◌≤ℤ◌ : ℤ → ℤ → Type 0
◌≤ℤ◌ a b = pos_part a + neg_part b ≤ pos_part b + neg_part a

-- p - n, brought into 64 bits.
unfoldable pub wrap_int : ℕ → ℕ → ℤ
wrap_int p n =
    let m = if leb n p then (p - n) % 2 ^ 64 else (2 ^ 64 - (n - p) % 2 ^ 64) % 2 ^ 64 in
    if ltb m (2 ^ 63) then pos m else negsuc (2 ^ 64 - m - 1)

unfoldable pub int_add : ℤ → ℤ → ℤ
int_add a b = wrap_int (pos_part a + pos_part b) (neg_part a + neg_part b)

unfoldable pub int_sub : ℤ → ℤ → ℤ
int_sub a b = wrap_int (pos_part a + neg_part b) (neg_part a + pos_part b)

-- `a % s == 0`, where the remainder has the sign of `a`.
abbrev pub divides : ℕ → ℤ → Bool
divides s a = (pos_part a + neg_part a) % s == 0

-- `uint64(a)` and `int(u)`
abbrev pub to_uint64 : ℤ → ℕ
to_uint64 (pos n) = n % 2 ^ 64
to_uint64 (negsuc n) = (2 ^ 64 - (n + 1) % 2 ^ 64) % 2 ^ 64

unfoldable pub from_uint64 : ℕ → ℤ
from_uint64 u = wrap_int u 0

-- `a / 2`, which rounds to 0.
abbrev pub half_int : ℤ → ℤ
half_int (pos n) = pos (n / 2)
half_int (negsuc n) = wrap_int 0 ((n + 1) / 2)
