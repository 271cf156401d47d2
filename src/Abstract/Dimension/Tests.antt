-- ===== src/Abstract/Dimension/Tests.antt =====
-- The width of A4 paper in dots, and runs of the definitions.

use mfp.Abstract.Dimension.Rounding.{
  upper_bound_greatest, lower_bound_least, dots-dimension_from_dots, Convertible,
}
use mfp.Abstract.Dimension.{upper_bound_dots, lower_bound_dots, dots, dimension_from_dots}
use mfp.Go.Int.{wrap_int, from_uint64, pos}
use mfp.Base.{◌↔◌, ◌≤◌, arith, ◌≡◌, ℕ, panic, refl, ok}

a4_dots : dots (pos 21000) (pos 300) ≡ pos 2480
unfolding dots from_uint64 wrap_int
a4_dots = refl

no_dpi : dimension_from_dots {E = Unit {0}} (pos 0) (pos 5) ≡ panic
unfolding dimension_from_dots
no_dpi = refl

upper_bound_greatest_example :
    (d : ℕ) × ((upper_bound_dots {E = Unit {0}} (pos 21000) (pos 300) ≡ ok (pos d))
      × ((m : ℕ)
          → Convertible 300 m
          → (a : ℕ) × ((dimension_from_dots {E = Unit {0}} (pos 300) (pos m) ≡ ok (pos a))
              × ((a ≤ 21000) ↔ (m ≤ d)))))
upper_bound_greatest_example =
    upper_bound_greatest {E = Unit {0}} 21000 300 (omega arith, omega arith)

lower_bound_least_example :
    (d : ℕ) × ((lower_bound_dots {E = Unit {0}} (pos 21000) (pos 300) ≡ ok (pos d))
      × ((m : ℕ)
          → Convertible 300 m
          → (a : ℕ) × ((dimension_from_dots {E = Unit {0}} (pos 300) (pos m) ≡ ok (pos a))
              × ((21000 ≤ a) ↔ (d ≤ m)))))
lower_bound_least_example = lower_bound_least {E = Unit {0}} 21000 300 (omega arith, omega arith)

dots-dimension_from_dots_example :
    (a : ℕ) × ((dimension_from_dots {E = Unit {0}} (pos 300) (pos 2480) ≡ ok (pos a))
      × (dots (pos a) (pos 300) ≡ pos 2480))
dots-dimension_from_dots_example =
    dots-dimension_from_dots {E = Unit {0}} 300 2480 (omega arith) (omega arith) (omega arith)
