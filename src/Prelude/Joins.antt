-- ===== src/Prelude/Joins.antt =====
-- `bit_or` of words that have no bit in common is their sum.
use Prim.Native.Nat.{
  ℕ, zero, suc, ◌+◌, ◌*◌, ◌/◌, ◌^◌, ◌≤◌, ◌<◌, max, bit_or, digits, bit_or-bitwise,
}
use mathlib.Core.Path.{◌≡◌, ◌∙◌}
use native.Mathlib.Nat.{pow-suc}
use native.Mathlib.Omega.{arith}

-- The recursion on at most `fuel` digits.
abbrev disj : ℕ → ℕ → ℕ → ℕ
disj fuel = digits (λ b. b) max fuel

double_shift : (m k : ℕ) → m * 2 ^ suc k ≡ m * 2 ^ k * 2
double_shift m k = grind (arith, pow-suc 2 k)

disj-apart : (m k a fuel : ℕ) → a < 2 ^ k → a ≤ fuel → disj fuel a (m * 2 ^ k) ≡ a + m * 2 ^ k
disj-apart m k zero zero below short = omega arith
disj-apart m k zero (suc fuel) below short = omega arith
disj-apart m k (suc a) zero below short = absurd (omega arith)
disj-apart m zero (suc a) (suc fuel) below short = absurd (omega arith)
disj-apart m (suc k) (suc a) (suc fuel) below short =
    let half : m * 2 ^ suc k / 2 ≡ m * 2 ^ k = omega (arith, double_shift m k) in
    rw half (
      omega (
        arith,
        double_shift m k,
        pow-suc 2 k,
        disj-apart m k (suc a / 2) fuel (omega (arith, pow-suc 2 k)) (omega arith),
      ))

-- The low word has only bits below 2 ^ k, the other one none of them.
pub bit_or-apart : (m k a : ℕ) → a < 2 ^ k → bit_or a (m * 2 ^ k) ≡ a + m * 2 ^ k
bit_or-apart m k a below = bit_or-bitwise a (m * 2 ^ k) ∙ disj-apart m k a a below (omega arith)
