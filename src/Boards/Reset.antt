-- ===== src/Boards/Reset.antt =====
-- The resets of platforms/axplat-aarch64-bsta1000b/src/misc.rs. A register reads as what it is told to
-- read, since a read after a write of a reset register need not give the value that was written.
pub mod Bootmode
use Prim.Native.Nat.{bit_and, bit_or}
use axplat_crates.Prelude.{ℕ, ◌-◌, ◌*◌, ◌/◌, ◌^◌, List, [], ◌∷◌, ◌++◌, u32_max}

pub data Event : Type 0 where
  write_reset_ctrl : (value : ℕ) → Event
  busy_wait_millis : ℕ → Event
  halts : Event

-- `0b11 << 15`
abbrev pub qspi_bits : ℕ
qspi_bits = 3 * 2 ^ 15

-- `value` is what the register of the resets reads.
pub reset_qspi : (value : ℕ) → List Event
reset_qspi value =
    write_reset_ctrl (bit_and value (u32_max - qspi_bits))
    ∷ busy_wait_millis 100
    ∷ write_reset_ctrl (bit_or value qspi_bits)
    ∷ busy_wait_millis 100
    ∷ []

-- `value'` is what it reads after that.
pub reset_cpu : (value value' : ℕ) → List Event
unfolding reset_qspi
reset_cpu value value' =
    reset_qspi value ++ write_reset_ctrl (bit_and value' (u32_max - 1)) ∷ halts ∷ []

pub do_reset : (value value' : ℕ) → List Event
unfolding reset_cpu
do_reset value value' = busy_wait_millis 50 ∷ reset_cpu value value'

pub get_bootmode : (value : ℕ) → ℕ
get_bootmode value = bit_and (value / 2 ^ 26) 0x7
