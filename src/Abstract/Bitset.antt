-- ===== src/Abstract/Bitset.antt =====
-- util/generic/bitset.go: a set of small integers as the bits of a uint32.

use Prim.Native.Nat.{bit_or}
use mfp.Go.Int.{ℤ, negsuc, pos}
use mfp.Base.{◌==◌, ◌%◌, ◌^◌, ◌/◌, ◌&&◌, ltb, Bool, Result, ℕ, panic, ok}

abbrev pub Bitset : Type 0
Bitset = ℕ

unfoldable pub set_union : Bitset → Bitset → Bitset
set_union a b = bit_or a b

-- A negative shift panics; the bit of an element from 32 on is shifted out.
unfoldable pub set_contains : {E : Type 0} → Bitset → ℤ → Result E Bool
set_contains set (pos n) = ok (ltb n 32 && set / 2 ^ n % 2 == 1)
set_contains set (negsuc n) = panic
