-- ===== src/Abstract/Capabilities/Ranges.antt =====
-- Range.Within, as an interval with steps.

use mfp.Abstract.Capabilities.{range_is_zero, within, Range}
use mfp.Go.Int.{int_lt, int_le, divides, neg_part, ◌≤ℤ◌, pos_part, ℤ, wrap_int, int_sub, pos}
use native.Mathlib.Nat.{div-add-mod', mul-mod_left}
use mfp.Base.{
  inl, inr, ◌≤◌, ◌||◌, ◌⊎◌, if◌then◌else◌, ◌-◌, arith, Bool, ◌/◌, ◌^◌, ◌*◌, ◌↔◌, ◌≡◌, ◌+◌, ◌==◌,
  ◌%◌, ℕ, true, false, ◌<◌,
}

wrap_exact : (p n : ℕ) → n ≤ p → p - n < 2 ^ 63 → wrap_int p n ≡ pos (p - n)
unfolding wrap_int
wrap_exact p n le near = ground arith

mod_iff : (d s : ℕ) → ((d % s == 0) ≡ true) ↔ ((k : ℕ) × (d ≡ k * s))
mod_iff d s =
    ((λ h. (d / s, ground (arith, div-add-mod' d s))), λ (k, e). ground (arith, mul-mod_left k s))

divides_iff : (x : ℤ) (d s : ℕ) → x ≡ pos d → (divides s x ≡ true) ↔ ((d % s == 0) ≡ true)
divides_iff x d s h = rw h (ground arith)

not_less : (a b : ℤ) → int_lt a b ≡ false → b ≤ℤ a
not_less a b h = ground arith

less_not : (a b : ℤ) → b ≤ℤ a → int_lt a b ≡ false
less_not a b h = ground arith

tests_iff :
    (z a b c d : Bool)
    → ((if z then false else if a || b then false else if c then true else d) ≡ true)
      ↔ ((z ≡ false) × ((a ≡ false) × ((b ≡ false) × ((c ≡ true) ⊎ (d ≡ true)))))
tests_iff z a b c d = ground arith

steps_iff :
    (low v : ℤ) (s : ℕ)
    → low ≤ℤ v
    → pos_part v + neg_part low < 2 ^ 63 + (pos_part low + neg_part v)
    → (divides s (int_sub v low) ≡ true)
      ↔ ((k : ℕ) × (pos_part v + neg_part low ≡ pos_part low + neg_part v + k * s))
unfolding int_sub
steps_iff low v s le near =
    let p = pos_part v + neg_part low in
    let n = neg_part v + pos_part low in
    let whole = divides_iff (wrap_int p n) (p - n) s (wrap_exact p n (omega arith) (omega arith)) in
    let steps = mod_iff (p - n) s in
    (
      (λ h. let (k, e) = steps.0 (whole.0 h) in (k, omega arith)),
      λ (k, e). whole.1 (steps.1 (k, omega arith)),
    )

-- The values that a range has: from the minimum to the maximum, a whole number of steps from the
-- minimum where there are steps.
abbrev pub Admits : Range → ℤ → Type 0
Admits r v =
    (range_is_zero r ≡ false)
    × ((r.low ≤ℤ v)
        × ((v ≤ℤ r.high)
            × ((int_le r.step (pos 1) ≡ true)
                ⊎ ((k : ℕ) × (pos_part v + neg_part r.low
                      ≡ pos_part r.low + neg_part v + k * pos_part r.step)))))

-- If a value is less than 2^63 above the minimum of a range, it is within the range exactly when the range
-- is not the zero value, the value is between the minimum and the maximum, and either the step is at most 1
-- or the value is a whole number of steps above the minimum.
pub within_iff :
    (r : Range) (v : ℤ)
    → pos_part v + neg_part r.low < 2 ^ 63 + (pos_part r.low + neg_part v)
    → (within r v ≡ true) ↔ Admits r v
unfolding within
within_iff r v near =
    let tests =
      tests_iff (range_is_zero r) (int_lt v r.low) (int_lt r.high v) (int_le r.step (pos 1))
        (divides (pos_part r.step) (int_sub v r.low)) in
    (
      (λ h.
          let (z, (a, (b, c))) = tests.0 h in
          let above = not_less v r.low a in
          (
            z,
            (
              above,
              (
                not_less r.high v b,
                elim c [
                  | inl e ↦ inl e
                  | inr e ↦ inr ((steps_iff r.low v (pos_part r.step) above near).0 e)
                ],
              ),
            ),
          )),
      λ (z, (above, (below, c))). tests.1 (
        z,
        (
          less_not v r.low above,
          (
            less_not r.high v below,
            elim c [
              | inl e ↦ inl e
              | inr e ↦ inr ((steps_iff r.low v (pos_part r.step) above near).1 e)
            ],
          ),
        ),
      ),
    )
