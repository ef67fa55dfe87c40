-- ===== src/Prelude/Bits.antt =====
-- `bit_and` with a single bit, with a mask of ones, and with a mask that lacks one bit. Each law is
-- read off the recursion on binary digits that defines the operation, with any fuel that suffices.
use Prim.Native.Nat.{
  ℕ, zero, suc, ◌+◌, ◌-◌, ◌*◌, ◌/◌, ◌%◌, ◌^◌, ◌≤◌, ◌<◌, min, bit_and, digits, bit_and-bitwise,
}
use mathlib.Core.Path.{◌≡◌, refl, ap, ◌∙◌}
use native.Mathlib.Nat.{zero-div, pow-suc, pow-succ', pow-le-pow_right, div-div-eq-div-mul}
use native.Mathlib.Omega.{arith}

-- The recursion on at most `fuel` digits.
abbrev conj : ℕ → ℕ → ℕ → ℕ
conj fuel = digits (λ _. 0) min fuel

conj-none : (fuel b : ℕ) → conj fuel 0 b ≡ 0
conj-none zero b = refl
conj-none (suc fuel) b = refl

half_pow : (k : ℕ) → 2 ^ suc k / 2 ≡ 2 ^ k
half_pow k = omega (arith, pow-suc 2 k)

half_mask : (w : ℕ) → (2 ^ suc w - 1) / 2 ≡ 2 ^ w - 1
half_mask w = omega (arith, pow-suc 2 w)

half_gap : (k w : ℕ) → k < w → (2 ^ suc w - 1 - 2 ^ suc k) / 2 ≡ 2 ^ w - 1 - 2 ^ k
half_gap k w h =
    let le : 2 ^ suc k ≤ 2 ^ w = pow-le-pow_right (omega arith) h in
    omega (arith, pow-suc 2 w, pow-suc 2 k)

half_shift : (k a : ℕ) → a / 2 ^ suc k ≡ a / 2 / 2 ^ k
half_shift k a = rw (div-div-eq-div-mul a 2 (2 ^ k), pow-succ' 2 k)

conj-clear_bit : (k a fuel : ℕ) → a < 2 ^ k → a ≤ fuel → conj fuel a (2 ^ k) ≡ 0
conj-clear_bit k zero zero _ _ = refl
conj-clear_bit k zero (suc fuel) _ _ = refl
conj-clear_bit k (suc a) zero _ short = absurd (omega arith)
conj-clear_bit zero (suc a) (suc fuel) below short = absurd (omega arith)
conj-clear_bit (suc k) (suc a) (suc fuel) below short = rw (half_pow k) (
    omega (
      arith,
      pow-suc 2 k,
      conj-clear_bit k (suc a / 2) fuel (omega (arith, pow-suc 2 k)) (omega arith),
    ))

conj-top_bit : (k a fuel : ℕ) → 2 ^ k ≤ a → a < 2 * 2 ^ k → a ≤ fuel → conj fuel a (2 ^ k) ≡ 2 ^ k
conj-top_bit k a zero above below short =
    absurd (omega (arith, pow-le-pow_right {n = 2} (omega arith) {i = 0} {j = k} (omega arith)))
conj-top_bit k zero (suc fuel) above below short =
    absurd (omega (arith, pow-le-pow_right {n = 2} (omega arith) {i = 0} {j = k} (omega arith)))
conj-top_bit zero (suc a) (suc fuel) above below short =
    omega (arith, conj-none fuel 0, ap (λ (n : ℕ). conj fuel n 0) half)
  where
    half : suc a / 2 ≡ 0
    half = omega arith
conj-top_bit (suc k) (suc a) (suc fuel) above below short = rw (half_pow k) (
    omega (
      arith,
      pow-suc 2 k,
      conj-top_bit k (suc a / 2) fuel (omega (arith, pow-suc 2 k)) (omega (arith, pow-suc 2 k))
          (omega arith),
    ))

conj-mask : (w a fuel : ℕ) → a < 2 ^ w → a ≤ fuel → conj fuel a (2 ^ w - 1) ≡ a
conj-mask w zero zero _ _ = refl
conj-mask w zero (suc fuel) _ _ = refl
conj-mask w (suc a) zero _ short = absurd (omega arith)
conj-mask zero (suc a) (suc fuel) below short = absurd (omega arith)
conj-mask (suc w) (suc a) (suc fuel) below short = rw (half_mask w) (
    omega
      (arith, pow-suc 2 w, conj-mask w (suc a / 2) fuel (omega (arith, pow-suc 2 w)) (omega arith)))

conj-gap :
    (k w a fuel : ℕ)
    → k < w
    → a < 2 ^ w
    → a / 2 ^ k % 2 ≡ 1
    → a ≤ fuel
    → conj fuel a (2 ^ w - 1 - 2 ^ k) + 2 ^ k ≡ a
conj-gap k w zero fuel _ _ bit _ = absurd (omega (arith, zero-div (2 ^ k)))
conj-gap k w (suc a) zero _ _ _ short = absurd (omega arith)
conj-gap k zero (suc a) (suc fuel) narrow _ _ _ = absurd (omega arith)
conj-gap zero (suc w) (suc a) (suc fuel) narrow below bit short =
    let rest : (2 ^ suc w - 1 - 1) / 2 ≡ 2 ^ w - 1 = omega (arith, pow-suc 2 w) in
    rw rest (
      omega (
        arith,
        pow-suc 2 w,
        conj-mask w (suc a / 2) fuel (omega (arith, pow-suc 2 w)) (omega arith),
      ))
conj-gap (suc k) (suc w) (suc a) (suc fuel) narrow below bit short =
    rw (half_gap k w (omega arith)) (
      omega (
        arith,
        pow-suc 2 w,
        pow-suc 2 k,
        pow-le-pow_right {n = 2} (omega arith) {i = suc k} {j = w} (omega arith),
        conj-gap k w (suc a / 2) fuel (omega arith) (omega (arith, pow-suc 2 w))
            (rw (half_shift k (suc a)) at bit) (omega arith),
      ))

-- Below 2 ^ k the bit of 2 ^ k is zero.
pub bit_and-pow_of_lt : (k a : ℕ) → a < 2 ^ k → bit_and a (2 ^ k) ≡ 0
bit_and-pow_of_lt k a h = bit_and-bitwise a (2 ^ k) ∙ conj-clear_bit k a a h (omega arith)

-- From 2 ^ k up to twice that it is one.
pub bit_and-pow_of_le : (k a : ℕ) → 2 ^ k ≤ a → a < 2 * 2 ^ k → bit_and a (2 ^ k) ≡ 2 ^ k
bit_and-pow_of_le k a h l = bit_and-bitwise a (2 ^ k) ∙ conj-top_bit k a a h l (omega arith)

-- A mask of `w` ones without the bit of 2 ^ k clears that bit of a word of `w` bits.
pub bit_and-gap :
    (k w a : ℕ) → k < w → a < 2 ^ w → a / 2 ^ k % 2 ≡ 1 → bit_and a (2 ^ w - 1 - 2 ^ k) + 2 ^ k ≡ a
bit_and-gap k w a h l s =
    rw (bit_and-bitwise a (2 ^ w - 1 - 2 ^ k)) (conj-gap k w a a h l s (omega arith))
