-- ===== src/Prelude/Words.antt =====
-- Machine words as native numbers: `+`, `-` and `*` wrap around, as they do in a release build.
use Prim.Native.Nat.{ℕ, ◌+◌, ◌-◌, ◌*◌, ◌%◌, ◌^◌}

abbrev pub u32_mod : ℕ
u32_mod = 2 ^ 32

abbrev pub u64_mod : ℕ
u64_mod = 2 ^ 64

abbrev pub u32_max : ℕ
u32_max = 2 ^ 32 - 1

-- `u64`, and `usize` on the 64-bit platforms.
abbrev pub add64 : ℕ → ℕ → ℕ
add64 a b = (a + b) % u64_mod

abbrev pub sub64 : ℕ → ℕ → ℕ
sub64 a b = (a + u64_mod - b) % u64_mod

abbrev pub mul64 : ℕ → ℕ → ℕ
mul64 a b = a * b % u64_mod

-- `usize` on the 32-bit platform.
abbrev pub add32 : ℕ → ℕ → ℕ
add32 a b = (a + b) % u32_mod

abbrev pub sub32 : ℕ → ℕ → ℕ
sub32 a b = (a + u32_mod - b) % u32_mod

-- The truncating casts `as u8` and `as u32`.
abbrev pub as_u8 : ℕ → ℕ
as_u8 a = a % 256

abbrev pub as_u32 : ℕ → ℕ
as_u32 a = a % u32_mod
