-- ===== src/Abstract/Dimension/Rounding.antt =====
-- The promises of Dots, UpperBoundDots and LowerBoundDots.

use mfp.Abstract.Dimension.Loops.{at_most_iff, from_exact}
use mfp.Abstract.Dimension.{dots, dimension_from_dots, upper_bound_dots, lower_bound_dots}
use mfp.Abstract.Dimension.Bounds.{
  upper_bound_exact, reaches, dots_exact, lower_bound_exact, greatest, falls_short, least, Fits,
}
use mfp.Go.Int.{pos}
use native.Mathlib.Nat.{div-add-mod', mod-lt}
use mfp.Base.{◌%◌, ap, ◌∙◌, arith, ◌↔◌, ◌≡◌, ◌^◌, ◌/◌, ◌+◌, ◌≤◌, ◌*◌, ℕ, ok, ◌<◌}

-- A number of dots that DimensionFromDots converts without overflow.
abbrev pub Convertible : ℕ → ℕ → Type 0
Convertible p m = m * 2540 + p < 2 ^ 63

-- For a length that is not negative and a positive resolution, whose product leaves room in an int,
-- UpperBoundDots comes to an end without a panic, and gives the greatest number of dots whose length is not
-- above the given one: of all numbers that are converted without overflow, those up to
-- it are not longer, and those above it are.
pub upper_bound_greatest :
    {E : Type 0} (n p : ℕ)
    → Fits n p
    → (d : ℕ) × ((upper_bound_dots {E = E} (pos n) (pos p) ≡ ok (pos d))
        × ((m : ℕ)
            → Convertible p m
            → (a : ℕ) × ((dimension_from_dots {E = E} (pos p) (pos m) ≡ ok (pos a))
                × ((a ≤ n) ↔ (m ≤ d)))))
upper_bound_greatest n p f = (
  greatest n p,
  (
    upper_bound_exact n p f,
    λ m room.
        let i = at_most_iff p m n f.0 in
        (
          (m * 2540 + p / 2) / p,
          (from_exact p m f.0 room, ((λ l. let k = i.0 l in omega arith), λ l. i.1 (omega arith))),
        ),
  ),
)

not_below : (n p : ℕ) → Fits n p → (m : ℕ) → n ≤ (m * 2540 + p / 2) / p → least n p ≤ m
not_below n p f m l =
    let less : m < least n p → ⊥ = λ k. let s = falls_short n p f m k in omega arith in omega arith

-- For a length that is not negative and a positive resolution, whose product leaves room in an int,
-- LowerBoundDots comes to an end without a panic, and gives the least number of dots whose length is not
-- below the given one: of all numbers that are converted without overflow, those from
-- it on are not shorter, and those below it are.
pub lower_bound_least :
    {E : Type 0} (n p : ℕ)
    → Fits n p
    → (d : ℕ) × ((lower_bound_dots {E = E} (pos n) (pos p) ≡ ok (pos d))
        × ((m : ℕ)
            → Convertible p m
            → (a : ℕ) × ((dimension_from_dots {E = E} (pos p) (pos m) ≡ ok (pos a))
                × ((n ≤ a) ↔ (d ≤ m)))))
lower_bound_least n p f = (
  least n p,
  (
    lower_bound_exact n p f,
    λ m room. (
      (m * 2540 + p / 2) / p,
      (from_exact p m f.0 room, ((λ l. not_below n p f m l), λ l. reaches n p f m l)),
    ),
  ),
)

-- At a positive resolution of up to 2540 dots per inch, a number of dots that is converted to a
-- length, without overflow, is given back by Dots.
pub dots-dimension_from_dots :
    {E : Type 0} (p m : ℕ)
    → 0 < p
    → p ≤ 2540
    → m * 2540 + 100000 < 2 ^ 63
    → (a : ℕ) × ((dimension_from_dots {E = E} (pos p) (pos m) ≡ ok (pos a))
        × (dots (pos a) (pos p) ≡ pos m))
dots-dimension_from_dots p m h small room =
    let a = (m * 2540 + p / 2) / p in
    let low = div-add-mod' (m * 2540 + p / 2) p in
    let rem = mod-lt (m * 2540 + p / 2) h in
    let whole : 2540 ≤ p → (m * 2540 + p / 2) % p ≡ 1270 =
      λ g. let e : p ≡ 2540 = omega arith in rw e (omega arith) in
    let near : p / 2 ≤ (m * 2540 + p / 2) % p + 1269 = ground arith in
    (
      a,
      (
        from_exact p m h (omega arith),
        dots_exact a p (h, omega arith) ∙ ap (λ x. pos x) (omega arith),
      ),
    )
