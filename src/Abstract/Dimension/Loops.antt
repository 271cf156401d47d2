-- ===== src/Abstract/Dimension/Loops.antt =====
-- The steps of the loops, and the conversion from dots on numbers that do not wrap around.

use mfp.Abstract.Dimension.{previous_dot, next_dot, inch, step_while, dimension_from_dots}
use mfp.Go.Int.{half_int, to_uint64, int_sub, int_add, int_eq, wrap_int, ℤ, from_uint64, pos}
use native.Mathlib.Nat.{div-lt_iff_lt-mul, div-le_self}
use mfp.Base.{
  ap, ◌%◌, ◌-◌, ◌↔◌, ◌≤◌, arith, ◌≡◌, ◌^◌, ◌/◌, Bool, ◌+◌, ◌*◌, Result, refl, ℕ, suc, ok, true,
  false, zero, ◌<◌,
}

n0 : (n : ℕ) → n + 0 ≡ n
n0 n = omega arith

next_small : (n : ℕ) → n + 1 < 2 ^ 63 → next_dot (pos n) ≡ pos (n + 1)
unfolding int_add wrap_int
next_small n h = ground arith

previous_small : (n : ℕ) → n + 1 < 2 ^ 63 → previous_dot (pos (n + 1)) ≡ pos n
unfolding int_sub wrap_int
previous_small n h = ground arith

module _ {E : Type 0} (test : ℤ → Result E Bool) where
  pub step_while-up :
      (fuel n k : ℕ)
      → k < fuel
      → n + k < 2 ^ 63
      → ((i : ℕ) → i < k → test (pos (n + i)) ≡ ok true)
      → test (pos (n + k)) ≡ ok false
      → step_while next_dot test fuel (pos n) ≡ ok (pos (n + k))
  unfolding step_while int_add wrap_int
  step_while-up zero n k room small more last = absurd (omega arith)
  step_while-up (suc fuel) n zero room small more last =
      let e : n + 0 ≡ n = omega arith in
      let t : test (pos n) ≡ ok false = rw (← e) last in rw (t, e) refl
  step_while-up (suc fuel) n (suc k) room small more last =
      let t : test (pos n) ≡ ok true = rw (← n0 n) (more 0 (omega arith)) in
      let shift : (i : ℕ) → n + 1 + i ≡ n + suc i = λ i. omega arith in
      let next : step_while next_dot test fuel (pos (n + 1)) ≡ ok (pos (n + 1 + k)) =
        step_while-up fuel (n + 1) k (omega arith) (omega arith)
          (λ i l. rw (shift i) (more (suc i) (omega arith))) (rw (shift k) last) in
      rw (t, next_small n (omega arith)) (rw (← shift k) next)

  pub step_while-down :
      (fuel n k : ℕ)
      → k < fuel
      → n + k < 2 ^ 63
      → ((i : ℕ) → i < k → test (pos (n + k - i)) ≡ ok true)
      → test (pos n) ≡ ok false
      → step_while previous_dot test fuel (pos (n + k)) ≡ ok (pos n)
  unfolding step_while int_sub wrap_int
  step_while-down zero n k room small more last = absurd (omega arith)
  step_while-down (suc fuel) n zero room small more last =
      let t : test (pos (n + 0)) ≡ ok false = rw (ap (λ x. pos x) (n0 n)) last in rw (t, n0 n) refl
  step_while-down (suc fuel) n (suc k) room small more last =
      let shift : n + suc k ≡ n + k + 1 = omega arith in
      let t : test (pos (n + k + 1)) ≡ ok true =
        let e : n + suc k - 0 ≡ n + k + 1 = omega arith in rw (← e) (more 0 (omega arith)) in
      let next : step_while previous_dot test fuel (pos (n + k)) ≡ ok (pos n) =
        step_while-down fuel n k (omega arith) (omega arith)
          (λ i l.
            let e : n + k - i ≡ n + suc k - suc i = omega arith in
            rw e (more (suc i) (omega arith)))
          last in
      rw shift (rw (t, previous_small (n + k) (omega arith)) next)

pub from_uint64_small : (u : ℕ) → u < 2 ^ 63 → from_uint64 u ≡ pos u
unfolding from_uint64 wrap_int
from_uint64_small u h = ground arith

pub from_exact :
    {E : Type 0} (p m : ℕ)
    → 0 < p
    → m * 2540 + p < 2 ^ 63
    → dimension_from_dots {E = E} (pos p) (pos m) ≡ ok (pos ((m * 2540 + p / 2) / p))
unfolding dimension_from_dots
from_exact p m h room =
    let small = div-le_self (m * 2540 + p / 2) p in
    let nonzero : int_eq (pos p) (pos 0) ≡ false = ground arith in
    let q : (to_uint64 (pos m) * inch % 2 ^ 64 + to_uint64 (half_int (pos p)))
          % 2 ^ 64
          / to_uint64 (pos p)
        ≡ (m * 2540 + p / 2) / p =
      let e : (m % 2 ^ 64 * 2540 % 2 ^ 64 + p / 2 % 2 ^ 64) % 2 ^ 64 ≡ m * 2540 + p / 2 =
        omega arith in
      let e' : p % 2 ^ 64 ≡ p = omega arith in rw (e, e') refl in
    rw (nonzero, q) (ap (λ x. ok x) (from_uint64_small _ (omega arith)))

pub at_most_iff :
    (p m n : ℕ) → 0 < p → ((m * 2540 + p / 2) / p ≤ n) ↔ (m * 2540 + p / 2 < n * p + p)
at_most_iff p m n h =
    let e : suc n * p ≡ n * p + p = omega arith in
    let i = div-lt_iff_lt-mul {k = p} {x = m * 2540 + p / 2} {y = suc n} h in
    (
      (λ l. let l' = i.0 (omega arith) in omega arith),
      λ l. let l' = i.1 (omega arith) in omega arith,
    )

pub above_iff : (p m n : ℕ) → 0 < p → (n < (m * 2540 + p / 2) / p) ↔ (n * p + p ≤ m * 2540 + p / 2)
above_iff p m n h =
    let i = at_most_iff p m n h in
    let not_more : n * p + p ≤ m * 2540 + p / 2 → (m * 2540 + p / 2) / p ≤ n → ⊥ =
      λ a b. let c = i.0 b in omega arith in
    let not_less : n < (m * 2540 + p / 2) / p → m * 2540 + p / 2 < n * p + p → ⊥ =
      λ a b. let c = i.1 b in omega arith in
    ((λ l. let k = not_less l in omega arith), λ l. let k = not_more l in omega arith)
