-- ===== src/Riscv/Time/Laws.antt =====
-- The conversions, the wall clock and the timer of platforms/axplat-riscv64-qemu-virt/src/time.rs.
use axplat_crates.Prelude.{
  ℕ, ◌+◌, ◌-◌, ◌*◌, ◌/◌, ◌≤◌, ◌<◌, ◌≡◌, ◌≢◌, true, [], ◌∷◌, ◌++◌, arith, returns, mul64, u64_mod,
}
use axplat_crates.Time.{nanos_per_sec, wall_time_nanos}
use axplat_crates.Time.Rate.{ticks-nanos, tick_before, wall_at}
use axplat_crates.Riscv.Time.{
  Config, TimeState, nanos_per_tick, ticks_to_nanos, nanos_to_ticks, init_early, set_oneshot_timer,
  time_if,
}

module _ (config : Config) where
  rate_pos :
      0 < config.timer_frequency
      → config.timer_frequency ≤ nanos_per_sec
      → 0 < nanos_per_tick config
  rate_pos p h = grind arith

  -- With a timer frequency from 1 Hz to 1 GHz, ticks whose nanoseconds fit a `u64` come back from
  -- nanoseconds.
  nanos_to_ticks-ticks_to_nanos :
      (ticks : ℕ)
      → 0 < config.timer_frequency
      → config.timer_frequency ≤ nanos_per_sec
      → ticks * nanos_per_tick config < u64_mod
      → nanos_to_ticks config (ticks_to_nanos config ticks) ≡ returns ticks
  unfolding nanos_to_ticks
  nanos_to_ticks-ticks_to_nanos ticks p h fits =
      let pos : 0 < nanos_per_tick config = rate_pos p h in
      ground (arith, ticks-nanos ticks (nanos_per_tick config) pos fits)

  -- With a timer frequency from 1 Hz to 1 GHz, `set_oneshot_timer` sets the timer to the last tick
  -- that is not past the deadline.
  set_oneshot_timer_lem :
      (deadline : ℕ) (s : TimeState)
      → 0 < config.timer_frequency
      → config.timer_frequency ≤ nanos_per_sec
      → (tick : ℕ) × (set_oneshot_timer config deadline s
          ≡ returns (record s { set_timer = s.set_timer ++ tick ∷ [] }))
        × (tick * nanos_per_tick config ≤ deadline)
        × (deadline < (tick + 1) * nanos_per_tick config)
  unfolding set_oneshot_timer
  set_oneshot_timer_lem deadline s p h =
      let pos : 0 < nanos_per_tick config = rate_pos p h in
      let (low, high) = tick_before deadline (nanos_per_tick config) pos in
      (deadline / nanos_per_tick config, ground arith, low, high)

  -- With the RTC in use, `init_early` at the reading `start` sets the wall clock to the RTC's time:
  -- at a later reading `now` it shows the RTC's time and the time since `start`, as long as both
  -- clocks fit a `u64`.
  wall_time_nanos-init_early :
      (timestamp start now : ℕ) (s : TimeState)
      → config.rtc ≡ true
      → config.rtc_paddr ≢ 0
      → start ≤ now
      → now * nanos_per_tick config < u64_mod
      → timestamp * 1_000_000_000 + (now - start) * nanos_per_tick config < u64_mod
      → wall_time_nanos (time_if config (init_early config timestamp start s)) now
        ≡ returns (timestamp * 1_000_000_000 + (now - start) * nanos_per_tick config)
  unfolding init_early
  wall_time_nanos-init_early timestamp start now s rtc addr le fits wall =
      let small : mul64 timestamp 1_000_000_000 ≡ timestamp * 1_000_000_000 = omega arith in
      ground
        (arith, wall_at (timestamp * 1_000_000_000) (nanos_per_tick config) start now le fits wall)
