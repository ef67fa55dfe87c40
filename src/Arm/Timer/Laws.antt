-- ===== src/Arm/Timer/Laws.antt =====
-- The deadlines and the wall clock of the ARM generic timer.
use axplat_crates.Prelude.{
  ℕ, ◌+◌, ◌-◌, ◌*◌, ◌≤◌, ◌<◌, ◌≡◌, ◌≢◌, Bool, true, false, max, ltb, ◌==◌, arith, returns, panics,
  as_u32, u32_mod, u64_mod, refl, mul64, lt→ltb, Bool-cases, inl, inr,
}
use axplat_crates.Time.{wall_time_nanos, nanos_per_sec}
use axplat_crates.Time.Rate.{wall_after}
use axplat_crates.Time.Ratio.{RatioIf}
use axplat_crates.Arm.Timer.{
  TimerState, set_countdown, emit, ticks_to_nanos, nanos_to_ticks, set_oneshot_timer, enable_irqs,
  init_early, init_rtc, time_if,
}

module _ (ratios : RatioIf) where
  pub init_early_run :
      (freq : ℕ) (ratio : ratios.Ratio) (s : TimerState ratios)
      → ratios.new nanos_per_sec freq ≡ returns ratio
      → init_early ratios freq s
        ≡ returns (record s {
          cntpct_to_nanos_ratio = ratio;
          nanos_to_cntpct_ratio = ratios.inverse ratio;
        })
  unfolding init_early
  init_early_run freq ratio s e = rw e

  pub ratio-init_rtc :
      (rtc_base timestamp ticks : ℕ) (s : TimerState ratios)
      → (init_rtc ratios rtc_base timestamp ticks s).cntpct_to_nanos_ratio ≡ s.cntpct_to_nanos_ratio
  unfolding init_rtc
  ratio-init_rtc rtc_base timestamp ticks s = elim (Bool-cases (rtc_base == 0)) [
    | inl e ↦ rw e
    | inr e ↦ rw e
  ]

  pub ratio-enable_irqs :
      (timer_irq : ℕ) (s : TimerState ratios)
      → (enable_irqs ratios timer_irq s).cntpct_to_nanos_ratio ≡ s.cntpct_to_nanos_ratio
  unfolding enable_irqs
  ratio-enable_irqs timer_irq s = refl

  -- Where the deadline is less than 2 ^ 32 ticks ahead, or is past, the countdown ends at the
  -- deadline's tick, or at once, in a debug and in a release build.
  pub set_oneshot_timer-reaches :
      (debug : Bool) (cur_ticks deadline_ns : ℕ) (s : TimerState ratios)
      → nanos_to_ticks ratios s deadline_ns < cur_ticks + u32_mod
      → (count : ℕ) × (set_oneshot_timer ratios debug cur_ticks deadline_ns s
          ≡ returns (emit ratios (set_countdown count) s))
        × (cur_ticks + count ≡ max cur_ticks (nanos_to_ticks ratios s deadline_ns))
  unfolding set_oneshot_timer
  set_oneshot_timer-reaches debug cur_ticks deadline_ns s h =
      let deadline : ℕ = nanos_to_ticks ratios s deadline_ns in
      (deadline - cur_ticks, ground arith, omega arith)

  -- Where it is 2 ^ 32 ticks ahead or more, a debug build panics, and a release build sets a
  -- countdown of less than 2 ^ 32 ticks, which ends before the deadline.
  pub set_oneshot_timer-far :
      (cur_ticks deadline_ns : ℕ) (s : TimerState ratios)
      → cur_ticks + u32_mod ≤ nanos_to_ticks ratios s deadline_ns
      → (count : ℕ) × (set_oneshot_timer ratios true cur_ticks deadline_ns s ≡ panics)
        × (set_oneshot_timer ratios false cur_ticks deadline_ns s
            ≡ returns (emit ratios (set_countdown count) s))
        × (cur_ticks + count < nanos_to_ticks ratios s deadline_ns)
  unfolding set_oneshot_timer
  set_oneshot_timer-far cur_ticks deadline_ns s h =
      let deadline : ℕ = nanos_to_ticks ratios s deadline_ns in
      let later : ltb cur_ticks deadline ≡ true = lt→ltb cur_ticks deadline (omega arith) in
      (as_u32 (deadline - cur_ticks), ground arith, ground arith, omega arith)

  -- Once the RTC is read at the counter's value `start`, the wall clock shows the RTC's time and
  -- the time since then, as long as both clocks fit a `u64`.
  pub wall_time_nanos-init_rtc :
      (rtc_base timestamp start now : ℕ) (s : TimerState ratios)
      → rtc_base ≢ 0
      → ticks_to_nanos ratios s start ≤ ticks_to_nanos ratios s now
      → ticks_to_nanos ratios s now < u64_mod
      → timestamp * 1_000_000_000 + (ticks_to_nanos ratios s now - ticks_to_nanos ratios s start)
        < u64_mod
      → wall_time_nanos (time_if ratios (init_rtc ratios rtc_base timestamp start s)) now
        ≡ returns (
            timestamp * 1_000_000_000
            + (ticks_to_nanos ratios s now - ticks_to_nanos ratios s start))
  unfolding init_rtc ticks_to_nanos
  wall_time_nanos-init_rtc rtc_base timestamp start now s nz le fits wall =
      let small : mul64 timestamp 1_000_000_000 ≡ timestamp * 1_000_000_000 = omega arith in
      let used : (rtc_base == 0) ≡ false = ground arith in
      rw (
        used,
        small,
        wall_after (timestamp * 1_000_000_000) (ticks_to_nanos ratios s start)
            (ticks_to_nanos ratios s now) le fits wall,
      )
