-- ===== src/Time/Ratio.antt =====
-- Ratios of clock rates, as the platforms with no whole number of nanoseconds to a tick use them.
use axplat_crates.Prelude.{ℕ, ◌≡◌, Exec}

-- `int_ratio::Ratio`, which is not part of this repository, and what its documentation says of the
-- zero ratio. `new` panics on a denominator of zero.
pub record RatioIf : Type 1 where
  pub Ratio : Type 0
  pub zero_ratio : Ratio
  pub new : (numerator denominator : ℕ) → Exec Ratio
  pub inverse : Ratio → Ratio
  pub mul_trunc : Ratio → ℕ → ℕ
  pub mul_trunc-zero_ratio : (value : ℕ) → mul_trunc zero_ratio value ≡ 0
