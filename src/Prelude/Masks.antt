-- ===== src/Prelude/Masks.antt =====
-- `bit_and` with a mask of ones takes the lowest bits.
use Prim.Native.Nat.{
  ℕ, zero, suc, ◌+◌, ◌-◌, ◌*◌, ◌/◌, ◌%◌, ◌^◌, ◌≤◌, ◌<◌, min, bit_and, digits, bit_and-bitwise,
}
use mathlib.Core.Path.{◌≡◌, refl, sym, ◌∙◌}
use native.Mathlib.Nat.{pow-suc, pow-le-pow_right, zero-mod}
use native.Mathlib.Omega.{arith}

abbrev conj : ℕ → ℕ → ℕ → ℕ
conj fuel = digits (λ _. 0) min fuel

half_ones : (k : ℕ) → (2 ^ suc k - 1) / 2 ≡ 2 ^ k - 1
half_ones k = omega (arith, pow-suc 2 k)

mod_double : (m a : ℕ) → 0 < m → a % (2 * m) ≡ a / 2 % m * 2 + a % 2
mod_double m a p = grind arith

conj-zero : (fuel b : ℕ) → conj fuel 0 b ≡ 0
conj-zero zero b = refl
conj-zero (suc fuel) b = refl

conj-none : (fuel a : ℕ) → conj fuel a 0 ≡ 0
conj-none zero a = refl
conj-none (suc fuel) zero = refl
conj-none (suc fuel) (suc a) = omega (arith, conj-none fuel (suc a / 2))

conj-ones : (k a fuel : ℕ) → a ≤ fuel → conj fuel a (2 ^ k - 1) ≡ a % 2 ^ k
conj-ones k zero fuel h = conj-zero fuel (2 ^ k - 1) ∙ sym (zero-mod (2 ^ k))
conj-ones k (suc a) zero h = absurd (omega arith)
conj-ones zero (suc a) (suc fuel) h = omega (arith, conj-none (suc fuel) (suc a))
conj-ones (suc k) (suc a) (suc fuel) h =
    let pos : 1 ≤ 2 ^ k = pow-le-pow_right {n = 2} (omega arith) {i = 0} {j = k} (omega arith) in
    let twice : 2 ^ suc k ≡ 2 * 2 ^ k = omega (arith, pow-suc 2 k) in
    let odd : (2 ^ suc k - 1) % 2 ≡ 1 = omega (arith, pow-suc 2 k) in
    let rest : conj fuel (suc a / 2) (2 ^ k - 1) ≡ suc a / 2 % 2 ^ k =
      conj-ones k (suc a / 2) fuel (omega arith) in
    rw (half_ones k, odd, twice) (omega (arith, rest, mod_double (2 ^ k) (suc a) pos))

pub bit_and-ones : (k a : ℕ) → bit_and a (2 ^ k - 1) ≡ a % 2 ^ k
bit_and-ones k a = bit_and-bitwise a (2 ^ k - 1) ∙ conj-ones k a a (omega arith)
