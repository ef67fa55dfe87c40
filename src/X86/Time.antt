-- ===== src/X86/Time.antt =====
-- The clock of platforms/axplat-x86-pc/src/time.rs: the time stamp counter since the start, the RTC
-- for the epoch, and the timer of the local APIC, which X86/Init has the state of: here it is taken to
-- be set up.
pub mod Laws
pub mod Start
mod Tests
use axplat_crates.Prelude.{
  ℕ, ◌-◌, ◌/◌, max, Bool, true, false, Option, none, some, List, [], ◌∷◌, ◌++◌, ltb, leb, ◌==◌,
  if◌then◌else◌, Exec, returns, panics, ◌>>=◌, as_u32, u32_max, sub64, mul64,
}
use axplat_crates.Time.{TimeIf, nanos_per_sec}
use axplat_crates.Time.Ratio.{RatioIf}

abbrev pub lapic_ticks_per_sec : ℕ
lapic_ticks_per_sec = 1_000_000_000

-- `CPU_FREQ_MHZ` at first, from `TIMER_FREQUENCY` of the default configuration.
abbrev pub default_freq_mhz : ℕ
default_freq_mhz = 4_000_000_000 / 1_000_000

-- The calls of the local APIC's driver.
pub data Event : Type 0 where
  set_timer_mode_one_shot : Event
  set_timer_divide_one : Event
  enable_timer : Event
  set_timer_initial : ℕ → Event

module _ (ratios : RatioIf) where
  open ratios use {Ratio, mul_trunc}

  pub record TimeState : Type 0 where
    pub nanos_to_lapic_ticks_ratio : Ratio
    pub init_tick : ℕ
    pub cpu_freq_mhz : ℕ
    pub rtc_epochoffset_nanos : ℕ
    pub log : List Event

  -- A division by zero panics.
  abbrev pub divide : ℕ → ℕ → Exec ℕ
  divide a b = if b == 0 then panics else returns (a / b)

  pub ticks_to_nanos : TimeState → ℕ → Exec ℕ
  ticks_to_nanos s ticks = divide (mul64 ticks 1_000) s.cpu_freq_mhz

  pub nanos_to_ticks : TimeState → ℕ → ℕ
  nanos_to_ticks s nanos = mul64 nanos s.cpu_freq_mhz / 1_000

  -- At a reading of the time stamp counter.
  abbrev pub current_ticks : TimeState → ℕ → ℕ
  current_ticks s tsc = sub64 tsc s.init_tick

  -- The base frequency that the processor tells, if it does, is taken where it is not zero.
  abbrev pub frequency : Option ℕ → ℕ → ℕ
  frequency none old = old
  frequency (some freq) old = if ltb 0 freq then freq else old

  -- `tsc` is the counter, `rtc` the feature, `timestamp` what the RTC reads.
  pub init_early :
      (freq_info : Option ℕ) (tsc : ℕ) (rtc : Bool) (timestamp : ℕ) → TimeState → Exec TimeState
  unfolding ticks_to_nanos
  init_early freq_info tsc rtc timestamp s =
      let s' : TimeState = record s {
        cpu_freq_mhz = frequency freq_info s.cpu_freq_mhz;
        init_tick = tsc;
      } in
      let offset = ticks_to_nanos s' tsc >>= λ nanos.
      returns (record s' { rtc_epochoffset_nanos = sub64 (mul64 timestamp 1_000_000_000) nanos }) in
      if rtc then offset else returns s'

  pub init_primary : TimeState → Exec TimeState
  init_primary s = do
    ratio ← ratios.new (as_u32 lapic_ticks_per_sec) (as_u32 nanos_per_sec)
    returns (record s {
      nanos_to_lapic_ticks_ratio = ratio;
      log = s.log ++ set_timer_mode_one_shot ∷ set_timer_divide_one ∷ enable_timer ∷ [];
    })

  pub init_secondary : TimeState → TimeState
  init_secondary s = record s { log = s.log ++ enable_timer ∷ [] }

  abbrev pub arm : ℕ → TimeState → TimeState
  arm count s = record s { log = s.log ++ set_timer_initial count ∷ [] }

  pub set_oneshot_timer : (tsc deadline_ns : ℕ) → TimeState → Exec TimeState
  unfolding ticks_to_nanos
  set_oneshot_timer tsc deadline_ns s = do
    now_ns ← ticks_to_nanos s (current_ticks s tsc)
    let apic_ticks = mul_trunc s.nanos_to_lapic_ticks_ratio (deadline_ns - now_ns)
    if ltb now_ns deadline_ns
        then if leb apic_ticks u32_max then returns (arm (as_u32 (max apic_ticks 1)) s) else panics
        else returns (arm 1 s)

  abbrev pub time_if : TimeState → TimeIf
  time_if s = record {
    ticks_to_nanos = ticks_to_nanos s;
    nanos_to_ticks = λ nanos. returns (nanos_to_ticks s nanos);
    epochoffset_nanos = s.rtc_epochoffset_nanos;
  }
