-- ===== src/Arm/Timer.antt =====
-- The clock of platforms/axplat-arm-peripherals/src/generic_timer.rs, and the epoch that
-- platforms/axplat-arm-peripherals/src/pl031.rs reads.
pub mod Laws
mod Tests
use axplat_crates.Prelude.{
  ℕ, ◌-◌, ◌≡◌, Bool, true, not, ◌&&◌, List, [], ◌∷◌, ◌++◌, ltb, leb, ◌==◌, if◌then◌else◌, Exec,
  returns, panics, ◌>>=◌, as_u32, u32_max, sub64, mul64,
}
use axplat_crates.Time.{TimeIf, nanos_per_sec}
use axplat_crates.Time.Ratio.{RatioIf}

-- The calls that set up the timer of a CPU.
pub data Event : Type 0 where
  set_countdown : ℕ → Event
  timer_set_enable : Bool → Event
  irq_set_enable : ℕ → Bool → Event

module _ (ratios : RatioIf) where
  open ratios use {Ratio, mul_trunc}

  pub record TimerState : Type 0 where
    pub cntpct_to_nanos_ratio : Ratio
    pub nanos_to_cntpct_ratio : Ratio
    pub rtc_epochoffset_nanos : ℕ
    pub log : List Event

  abbrev pub emit : Event → TimerState → TimerState
  emit e s = record s { log = s.log ++ e ∷ [] }

  pub ticks_to_nanos : TimerState → ℕ → ℕ
  ticks_to_nanos s ticks = mul_trunc s.cntpct_to_nanos_ratio ticks

  pub nanos_to_ticks : TimerState → ℕ → ℕ
  nanos_to_ticks s nanos = mul_trunc s.nanos_to_cntpct_ratio nanos

  -- `cur_ticks` is the counter, and `debug` tells whether `debug_assert!` is checked.
  pub set_oneshot_timer : (debug : Bool) (cur_ticks deadline_ns : ℕ) → TimerState → Exec TimerState
  unfolding nanos_to_ticks
  set_oneshot_timer debug cur_ticks deadline_ns s =
      let deadline_ticks = nanos_to_ticks s deadline_ns in
      let interval = deadline_ticks - cur_ticks in
      if ltb cur_ticks deadline_ticks
      then if debug && not (leb interval u32_max)
        then panics
        else returns (emit (set_countdown (as_u32 interval)) s)
      else returns (emit (set_countdown 0) s)

  -- `freq` is the frequency that the timer reads.
  pub init_early : (freq : ℕ) → TimerState → Exec TimerState
  init_early freq s = do
    to_nanos ← ratios.new (as_u32 nanos_per_sec) freq
    returns (record s {
      cntpct_to_nanos_ratio = to_nanos;
      nanos_to_cntpct_ratio = ratios.inverse to_nanos;
    })

  pub enable_irqs : (timer_irq_num : ℕ) → TimerState → TimerState
  enable_irqs timer_irq_num s =
      emit (irq_set_enable timer_irq_num true)
        (emit (set_countdown 0) (emit (timer_set_enable true) s))

  -- `pl031::init_early`, with what the RTC and the counter read.
  pub init_rtc : (rtc_base timestamp ticks : ℕ) → TimerState → TimerState
  unfolding ticks_to_nanos
  init_rtc rtc_base timestamp ticks s =
      if rtc_base == 0
      then s
      else (let epoch_time_nanos = mul64 timestamp 1_000_000_000 in
          record s { rtc_epochoffset_nanos = sub64 epoch_time_nanos (ticks_to_nanos s ticks) })

  abbrev pub time_if : TimerState → TimeIf
  time_if s = record {
    ticks_to_nanos = λ ticks. returns (ticks_to_nanos s ticks);
    nanos_to_ticks = λ nanos. returns (nanos_to_ticks s nanos);
    epochoffset_nanos = s.rtc_epochoffset_nanos;
  }
