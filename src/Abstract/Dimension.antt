-- ===== src/Abstract/Dimension.antt =====
-- abstract/dimension.go: lengths in 1/100 of a millimeter, and numbers of dots.

pub mod Loops
pub mod Bounds
pub mod Rounding
pub mod Tests
use mfp.Go.Int.{half_int, int_lt, int_eq, int_le, to_uint64, int_sub, int_add, from_uint64, ℤ, pos}
use mfp.Base.{
  ◌/◌, ◌^◌, ◌%◌, ◌>>=◌, ◌+◌, ◌*◌, if◌then◌else◌, Result, Bool, ℕ, zero, false, stuck, suc, ok,
  panic, ◌<◌,
}

abbrev pub inch : ℕ
inch = 2540

unfoldable pub dots : ℤ → ℤ → ℤ
dots dim dpi = from_uint64 ((to_uint64 dim * to_uint64 dpi % 2 ^ 64 + inch / 2) % 2 ^ 64 / inch)

unfoldable pub dimension_from_dots : {E : Type 0} → ℤ → ℤ → Result E ℤ
dimension_from_dots dpi n =
    if int_eq dpi (pos 0)
    then panic
    else ok (
        from_uint64
          ((to_uint64 n * inch % 2 ^ 64 + to_uint64 (half_int dpi)) % 2 ^ 64 / to_uint64 dpi))

-- The loops, which move by one dot while a test holds.
unfoldable pub step_while : {E : Type 0} → (ℤ → ℤ) → (ℤ → Result E Bool) → ℕ → ℤ → Result E ℤ
step_while step test zero n = stuck
step_while step test (suc fuel) n =
    let rest = step_while step test fuel (step n) in test n >>= λ more. if more then rest else ok n

abbrev pub next_dot : ℤ → ℤ
next_dot n = int_add n (pos 1)

abbrev pub previous_dot : ℤ → ℤ
previous_dot n = int_sub n (pos 1)

abbrev pub dots_fuel : ℤ → ℕ
dots_fuel dpi = to_uint64 dpi + 4

abbrev pub compared : {E : Type 0} → (ℤ → ℤ → Bool) → ℤ → ℤ → ℤ → Result E Bool
compared c dim dpi n = dimension_from_dots dpi n >>= λ d. ok (c d dim)

unfoldable pub upper_bound_dots : {E : Type 0} → ℤ → ℤ → Result E ℤ
upper_bound_dots dim dpi =
    step_while next_dot (compared int_le dim dpi) (dots_fuel dpi) (dots dim dpi)
    >>= step_while previous_dot
        (λ n. if int_le (pos 0) dim then compared (λ d e. int_lt e d) dim dpi n else ok false)
        (dots_fuel dpi)

unfoldable pub lower_bound_dots : {E : Type 0} → ℤ → ℤ → Result E ℤ
lower_bound_dots dim dpi =
    step_while previous_dot
      (λ n. if int_lt (pos 0) n then compared (λ d e. int_le e d) dim dpi n else ok false)
      (dots_fuel dpi) (dots dim dpi)
    >>= step_while next_dot (compared int_lt dim dpi) (dots_fuel dpi)
