-- ===== src/X86/Time/Laws.antt =====
-- The conversions, the timer and the wall clock of platforms/axplat-x86-pc/src/time.rs.
use axplat_crates.Prelude.{
  ℕ, ◌+◌, ◌-◌, ◌*◌, ◌/◌, ◌≤◌, ◌<◌, ◌≡◌, ap, true, false, Option, ◌==◌, arith, returns, u64_mod,
  add64, mul64, sub64, pos→not-zero,
}
use axplat_crates.Time.{wall_time_nanos}
use axplat_crates.X86.Time.Start.{frequency_pos}
use axplat_crates.Time.Rate.{tick_before}
use axplat_crates.Time.Ratio.{RatioIf}
use axplat_crates.X86.Time.{
  TimeState, ticks_to_nanos, nanos_to_ticks, current_ticks, frequency, init_early, time_if,
}

behind :
    (epoch before elapsed : ℕ)
    → before ≤ epoch
    → epoch + elapsed < u64_mod
    → add64 elapsed (sub64 epoch before) ≡ epoch + elapsed - before
behind epoch before elapsed le fits = omega arith

module _ (ratios : RatioIf) where
  -- Ticks that are turned into nanoseconds and back lose less than a nanosecond's worth of ticks and
  -- one tick more, as long as the products of both conversions fit a `u64`.
  nanos_to_ticks-loss :
      (ticks : ℕ) (s : TimeState ratios)
      → 0 < s.cpu_freq_mhz
      → ticks * 1_000 < u64_mod
      → (nanos : ℕ) × (ticks_to_nanos ratios s ticks ≡ returns nanos)
        × (nanos_to_ticks ratios s nanos ≤ ticks)
        × (ticks ≤ nanos_to_ticks ratios s nanos + s.cpu_freq_mhz / 1_000 + 1)
  unfolding ticks_to_nanos nanos_to_ticks
  nanos_to_ticks-loss ticks s pos fits =
      let f : ℕ = s.cpu_freq_mhz in
      let nanos : ℕ = ticks * 1_000 / f in
      let (low, high) = tick_before (ticks * 1_000) f pos in
      let top : (nanos + 1) * f ≡ nanos * f + f = grind arith in
      let small : mul64 ticks 1_000 ≡ ticks * 1_000 = omega arith in
      let back : mul64 nanos f ≡ nanos * f = omega arith in
      (nanos, rw small (ground arith), omega (arith, back), omega (arith, back))

  -- The wall clock after `init_early` is behind the RTC by the time that the counter had run for
  -- before: at the counter's value `tsc` it shows the RTC's time and the time since then, less the
  -- counter's time at the start. The frequency is the one that the processor tells, if it tells one
  -- that is not zero, and else the configured one, which must not be zero; the products and the sum
  -- must fit a `u64`, and the counter's time at the start must not be past the RTC's time.
  pub wall_time_nanos-behind :
      (freq_info : Option ℕ) (start tsc timestamp : ℕ) (s : TimeState ratios)
      → let f = frequency ratios freq_info s.cpu_freq_mhz in
        0 < s.cpu_freq_mhz
        → start ≤ tsc
        → tsc * 1_000 < u64_mod
        → start * 1_000 / f ≤ timestamp * 1_000_000_000
        → timestamp * 1_000_000_000 + (tsc - start) * 1_000 / f < u64_mod
        → (t : TimeState ratios) × (init_early ratios freq_info start true timestamp s ≡ returns t)
          × (wall_time_nanos (time_if ratios t) (current_ticks ratios t tsc)
              ≡ returns (timestamp * 1_000_000_000 + (tsc - start) * 1_000 / f - start * 1_000 / f))
  unfolding init_early ticks_to_nanos
  wall_time_nanos-behind freq_info start tsc timestamp s pos le fits known wall =
      let f : ℕ = frequency ratios freq_info s.cpu_freq_mhz in
      let used : (f == 0) ≡ false =
        pos→not-zero f (frequency_pos ratios freq_info s.cpu_freq_mhz pos) in
      let ticks : sub64 tsc start ≡ tsc - start = omega arith in
      let before : mul64 start 1_000 ≡ start * 1_000 = omega arith in
      let since : mul64 (tsc - start) 1_000 ≡ (tsc - start) * 1_000 = omega arith in
      let epoch : mul64 timestamp 1_000_000_000 ≡ timestamp * 1_000_000_000 = omega arith in
      (
        record s {
          cpu_freq_mhz = f;
          init_tick = start;
          rtc_epochoffset_nanos = sub64 (timestamp * 1_000_000_000) (start * 1_000 / f);
        },
        rw (used, before, epoch),
        rw (used, ticks, since)
            (ap returns (
              behind (timestamp * 1_000_000_000) (start * 1_000 / f) ((tsc - start) * 1_000 / f)
                known wall)),
      )
