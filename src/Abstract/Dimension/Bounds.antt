-- ===== src/Abstract/Dimension/Bounds.antt =====
-- What Dots, UpperBoundDots, LowerBoundDots and DimensionFromDots come to, on numbers that do not
-- wrap around.

use mfp.Abstract.Dimension.Loops.{
  step_while-down, step_while-up, from_uint64_small, above_iff, at_most_iff, from_exact,
}
use mfp.Abstract.Dimension.{
  lower_bound_dots, previous_dot, next_dot, step_while, upper_bound_dots, compared, dots,
}
use mfp.Go.Int.{int_lt, to_uint64, int_le, ℤ, pos}
use native.Mathlib.Nat.{le-mul_of_pos_right, le-div_iff_mul-le, div-lt_iff_lt-mul}
use mfp.Base.{
  ◌∙◌, sym, suc, refl, inr, inl, zero, if◌then◌else◌, ◌⊎◌, Result, ◌%◌, ap, arith, ◌≡◌, ◌^◌, ◌/◌,
  ◌-◌, ◌+◌, Bool, ◌≤◌, ◌*◌, ℕ, ok, false, true, ◌<◌,
}

-- A length and a resolution whose product leaves room in an int.
abbrev pub Fits : ℕ → ℕ → Type 0
Fits n p = (0 < p) × (n * p + 4 * p + 10000 < 2 ^ 63)

-- The greatest number of dots that is not longer than the length.
abbrev pub greatest : ℕ → ℕ → ℕ
greatest n p = (n * p + p - p / 2 - 1) / 2540

-- The least number of dots that is not shorter than the length.
abbrev pub least : ℕ → ℕ → ℕ
least n p = (n * p - p / 2 + 2539) / 2540

pub dots_exact : (n p : ℕ) → Fits n p → dots (pos n) (pos p) ≡ pos ((n * p + 1270) / 2540)
unfolding dots
dots_exact n p f =
    let (h, room) = f in
    let le : n ≤ n * p = le-mul_of_pos_right n h in
    let e : n % 2 ^ 64 ≡ n = omega arith in
    let e' : p % 2 ^ 64 ≡ p = omega arith in
    let e'' : (n * p % 2 ^ 64 + 1270) % 2 ^ 64 ≡ n * p + 1270 = omega arith in
    rw (e, e', e'') (from_uint64_small ((n * p + 1270) / 2540) (omega arith))

not_negative : (n : ℕ) → int_le (pos 0) (pos n) ≡ true
not_negative n = ground arith

module _ (n p : ℕ) (f : Fits n p) where
  pub reaches : (m : ℕ) → least n p ≤ m → n ≤ (m * 2540 + p / 2) / p
  reaches m l = (le-div_iff_mul-le {k = p} {x = n} {y = m * 2540 + p / 2} f.0).1 (omega arith)

  pub falls_short : (m : ℕ) → m < least n p → (m * 2540 + p / 2) / p < n
  falls_short m l = (div-lt_iff_lt-mul {k = p} {x = m * 2540 + p / 2} {y = n} f.0).1 (omega arith)

  bottom : ((least n p - 1) ≡ 0) ⊎ (least n p - 1 < least n p)
  bottom = ground arith

module _ {E : Type 0} (n p : ℕ) (f : Fits n p) where
  -- A test of the loops, decided.
  compared_exact :
      (c : ℤ → ℤ → Bool) (m : ℕ) (b : Bool)
      → m * 2540 + p < 2 ^ 63
      → c (pos ((m * 2540 + p / 2) / p)) (pos n) ≡ b
      → compared {E = E} c (pos n) (pos p) (pos m) ≡ ok b
  compared_exact c m b room h = rw (from_exact {E = E} p m f.0 room) (ap (λ x. ok x) h)

  up_goes : (m : ℕ) → m ≤ greatest n p → compared {E = E} int_le (pos n) (pos p) (pos m) ≡ ok true
  up_goes m h =
      compared_exact int_le m true (omega arith)
        (let i = (at_most_iff p m n f.0).1 (omega arith) in ground arith)

  up_stops : compared {E = E} int_le (pos n) (pos p) (pos (greatest n p + 1)) ≡ ok false
  up_stops =
      compared_exact int_le (greatest n p + 1) false (omega arith)
        (let i = (above_iff p (greatest n p + 1) n f.0).1 (omega arith) in ground arith)

  -- The tests of the loops that go down.
  abbrev over : ℤ → Result E Bool
  over d =
      if int_le (pos 0) (pos n) then compared (λ a b. int_lt b a) (pos n) (pos p) d else ok false

  over_more : over (pos (greatest n p + 1)) ≡ ok true
  over_more =
      let i = (above_iff p (greatest n p + 1) n f.0).1 (omega arith) in
      rw (not_negative n)
        (compared_exact (λ a b. int_lt b a) (greatest n p + 1) true (omega arith) (ground arith))

  over_last : over (pos (greatest n p)) ≡ ok false
  over_last =
      let i = (at_most_iff p (greatest n p) n f.0).1 (omega arith) in
      rw (not_negative n)
        (compared_exact (λ a b. int_lt b a) (greatest n p) false (omega arith) (ground arith))

  over_down :
      step_while previous_dot over (p + 4) (pos (greatest n p + 1)) ≡ ok (pos (greatest n p))
  over_down =
      step_while-down over (p + 4) (greatest n p) 1 (omega arith) (omega arith)
        (λ i l. let e : greatest n p + 1 - i ≡ greatest n p + 1 = omega arith in rw e over_more)
        over_last

  pub upper_bound_exact : upper_bound_dots {E = E} (pos n) (pos p) ≡ ok (pos (greatest n p))
  unfolding upper_bound_dots
  upper_bound_exact =
      let (h, room) = f in
      let d = (n * p + 1270) / 2540 in
      let k = greatest n p + 1 - d in
      let fuel : to_uint64 (pos p) + 4 ≡ p + 4 = omega arith in
      let e : d + k ≡ greatest n p + 1 = omega arith in
      let up : step_while next_dot (compared {E = E} int_le (pos n) (pos p)) (p + 4) (pos d)
          ≡ ok (pos (greatest n p + 1)) =
        rw (← e) (
          step_while-up (compared int_le (pos n) (pos p)) (p + 4) d k (omega arith) (omega arith)
            (λ i l. up_goes (d + i) (omega arith)) (rw e up_stops)) in
      rw (dots_exact n p f, fuel, up) over_down

  -- The test of the first loop of LowerBoundDots.
  abbrev enough : ℤ → Result E Bool
  enough d = if int_lt (pos 0) d then compared (λ a b. int_le b a) (pos n) (pos p) d else ok false

  enough_more : (m : ℕ) → 0 < m → least n p ≤ m → m * 2540 ≤ n * p + 1270 → enough (pos m) ≡ ok true
  enough_more m h l room =
      let t : int_lt (pos 0) (pos m) ≡ true = ground arith in
      let r = reaches n p f m l in
      rw t (compared_exact (λ a b. int_le b a) m true (omega arith) (ground arith))

  enough_last : (m : ℕ) → (m ≡ 0) ⊎ (m < least n p) → enough (pos m) ≡ ok false
  enough_last zero h = refl
  enough_last (suc m) (inl h) = absurd (omega arith)
  enough_last (suc m) (inr h) =
      let t : int_lt (pos 0) (pos (suc m)) ≡ true = ground arith in
      let r = falls_short n p f (suc m) h in
      rw t (compared_exact (λ a b. int_le b a) (suc m) false (omega arith) (ground arith))

  short_more : (m : ℕ) → m < least n p → compared {E = E} int_lt (pos n) (pos p) (pos m) ≡ ok true
  short_more m l =
      let r = falls_short n p f m l in compared_exact int_lt m true (omega arith) (ground arith)

  short_last : compared {E = E} int_lt (pos n) (pos p) (pos (least n p)) ≡ ok false
  short_last =
      let r = reaches n p f (least n p) (omega arith) in
      compared_exact int_lt (least n p) false (omega arith) (ground arith)

  pub lower_bound_exact : lower_bound_dots {E = E} (pos n) (pos p) ≡ ok (pos (least n p))
  unfolding lower_bound_dots
  lower_bound_exact =
      let (h, room) = f in
      let d = (n * p + 1270) / 2540 in
      let t = least n p - 1 in
      let small : d + 1 ≤ p + 4 + t = omega arith in
      let fuel : to_uint64 (pos p) + 4 ≡ p + 4 = omega arith in
      let e : t + (d - t) ≡ d = omega arith in
      let down : step_while previous_dot enough (p + 4) (pos (t + (d - t))) ≡ ok (pos t) =
        step_while-down enough (p + 4) t (d - t) (omega arith) (omega arith)
          (λ i l. enough_more (t + (d - t) - i) (omega arith) (omega arith) (omega arith))
          (enough_last t (bottom n p f)) in
      let from_d = ap (λ x. step_while previous_dot enough (p + 4) (pos x)) (sym e) ∙ down in
      let e' : t + (least n p - t) ≡ least n p = omega arith in
      let up : step_while next_dot (compared {E = E} int_lt (pos n) (pos p)) (p + 4) (pos t)
          ≡ ok (pos (t + (least n p - t))) =
        step_while-up (compared int_lt (pos n) (pos p)) (p + 4) t (least n p - t) (omega arith)
          (omega arith) (λ i l. short_more (t + i) (omega arith)) (rw e' short_last) in
      rw (dots_exact n p f, fuel, from_d) (up ∙ ap (λ x. ok (pos x)) e')
