-- ===== src/Go/Bits.antt =====
-- Masks and shifts on small numbers as arithmetic: tables that are checked by evaluation.
use mfp.Base.{◌+◌, ◌&&◌, ◌%◌, ◌==◌, ◌/◌, ◌*◌, arith, ◌≡◌, ◌<◌, Bool, ℕ, refl, suc, true, zero}
use Prim.Native.Nat.{ℕ, bit_or}

module _ (f g : ℕ → ℕ) where
  unfoldable pub same_below : ℕ → Bool
  same_below zero = true
  same_below (suc n) = f n == g n && same_below n

  pub same_below_lem : (n : ℕ) → same_below n ≡ true → (i : ℕ) → i < n → f i ≡ g i
  unfolding same_below
  same_below_lem zero e i h = absurd (omega arith)
  same_below_lem (suc n) e i h = ground (arith, same_below_lem n (ground arith) i)

or_nibbles_table : (k : ℕ) → k < 256 → bit_or (k / 16 * 16) (k % 16) ≡ k
unfolding same_below
or_nibbles_table = same_below_lem (λ k. bit_or (k / 16 * 16) (k % 16)) (λ k. k) 256 refl

or_octal_table : (k : ℕ) → k < 512 → bit_or (k / 8 * 8) (k % 8) ≡ k
unfolding same_below
or_octal_table = same_below_lem (λ k. bit_or (k / 8 * 8) (k % 8)) (λ k. k) 512 refl

-- A shift by a digit and an `|` of the digit is a sum.
pub or_nibbles : (h l : ℕ) → h < 16 → l < 16 → bit_or (h * 16) l ≡ h * 16 + l
or_nibbles h l hh hl =
    let e : (h * 16 + l) / 16 ≡ h = omega arith in
    let m : (h * 16 + l) % 16 ≡ l = omega arith in
    rw (e, m) at (or_nibbles_table (h * 16 + l) (omega arith))

pub or_octal : (h l : ℕ) → h < 64 → l < 8 → bit_or (h * 8) l ≡ h * 8 + l
or_octal h l hh hl =
    let e : (h * 8 + l) / 8 ≡ h = omega arith in
    let m : (h * 8 + l) % 8 ≡ l = omega arith in
    rw (e, m) at (or_octal_table (h * 8 + l) (omega arith))
