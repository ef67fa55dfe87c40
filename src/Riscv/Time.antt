-- ===== src/Riscv/Time.antt =====
-- The clock of platforms/axplat-riscv64-qemu-virt/src/time.rs: the `time` register for ticks, the
-- Goldfish RTC for the epoch, and the SBI timer.
pub mod Laws
mod Tests
use axplat_crates.Prelude.{
  ℕ, ◌/◌, Bool, true, false, not, ◌&&◌, List, [], ◌∷◌, ◌++◌, ◌==◌, if◌then◌else◌, Exec, returns,
  panics, ◌>>=◌, sub64, mul64,
}
use axplat_crates.Time.{TimeIf, nanos_per_sec}

-- `crate::config::devices`, and the features that the code tests.
pub record Config : Type 0 where
  pub timer_frequency : ℕ
  pub rtc_paddr : ℕ
  pub rtc : Bool
  pub irq : Bool

-- The epoch offset, and the calls of `sbi_rt::set_timer` so far.
pub record TimeState : Type 0 where
  pub rtc_epochoffset_nanos : ℕ
  pub set_timer : List ℕ

module _ (config : Config) where
  abbrev pub nanos_per_tick : ℕ
  nanos_per_tick = nanos_per_sec / config.timer_frequency

  abbrev pub ticks_to_nanos : ℕ → ℕ
  ticks_to_nanos ticks = mul64 ticks nanos_per_tick

  -- A division by zero panics.
  pub nanos_to_ticks : ℕ → Exec ℕ
  nanos_to_ticks nanos = if nanos_per_tick == 0 then panics else returns (nanos / nanos_per_tick)

  -- `timestamp` is what `get_unix_timestamp` gives, `ticks` what `current_ticks` does.
  pub init_early : (timestamp ticks : ℕ) → TimeState → TimeState
  init_early timestamp ticks s =
      if config.rtc && not (config.rtc_paddr == 0)
      then record s {
        rtc_epochoffset_nanos = sub64 (mul64 timestamp 1_000_000_000) (ticks_to_nanos ticks);
      }
      else s

  pub init_percpu : TimeState → TimeState
  init_percpu s = if config.irq then record s { set_timer = s.set_timer ++ 0 ∷ [] } else s

  pub set_oneshot_timer : ℕ → TimeState → Exec TimeState
  unfolding nanos_to_ticks
  set_oneshot_timer deadline_ns s = do
    ticks ← nanos_to_ticks deadline_ns
    returns (record s { set_timer = s.set_timer ++ ticks ∷ [] })

  abbrev pub time_if : TimeState → TimeIf
  time_if s = record {
    ticks_to_nanos = λ ticks. returns (ticks_to_nanos ticks);
    nanos_to_ticks = nanos_to_ticks;
    epochoffset_nanos = s.rtc_epochoffset_nanos;
  }
