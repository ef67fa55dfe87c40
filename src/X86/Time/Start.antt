-- ===== src/X86/Time/Start.antt =====
-- The initialisation of platforms/axplat-x86-pc/src/time.rs returns.
use axplat_crates.Prelude.{
  ℕ, ◌<◌, ◌≡◌, refl, Bool, true, false, Option, none, some, [], ◌∷◌, ◌++◌, arith, returns, as_u32,
  mul64, sub64, pos→not-zero, ◌/◌,
}
use axplat_crates.Time.{nanos_per_sec}
use axplat_crates.Time.Ratio.{RatioIf}
use axplat_crates.X86.Time.{
  TimeState, set_timer_mode_one_shot, set_timer_divide_one, enable_timer, lapic_ticks_per_sec,
  frequency, init_early, init_primary,
}

module _ (ratios : RatioIf) where
  pub frequency_pos :
      (freq_info : Option ℕ) (old : ℕ) → 0 < old → 0 < frequency ratios freq_info old
  frequency_pos none old h = h
  frequency_pos (some freq) old h = ground arith

  pub init_early_returns :
      (freq_info : Option ℕ) (tsc : ℕ) (rtc : Bool) (timestamp : ℕ) (s : TimeState ratios)
      → 0 < s.cpu_freq_mhz
      → (t : TimeState ratios) × (init_early ratios freq_info tsc rtc timestamp s ≡ returns t)
        × (0 < t.cpu_freq_mhz)
  unfolding init_early
  init_early_returns freq_info tsc false timestamp s h =
      (_, refl, frequency_pos freq_info s.cpu_freq_mhz h)
  init_early_returns freq_info tsc true timestamp s h =
      let freq = frequency ratios freq_info s.cpu_freq_mhz in
      let s' : TimeState ratios = record s { cpu_freq_mhz = freq; init_tick = tsc } in
      (
        record s' {
          rtc_epochoffset_nanos = sub64 (mul64 timestamp 1_000_000_000) (mul64 tsc 1_000 / freq);
        },
        rw (pos→not-zero freq (frequency_pos freq_info s.cpu_freq_mhz h)),
        frequency_pos freq_info s.cpu_freq_mhz h,
      )

  pub init_primary_run :
      (ratio : ratios.Ratio) (s : TimeState ratios)
      → ratios.new (as_u32 lapic_ticks_per_sec) (as_u32 nanos_per_sec) ≡ returns ratio
      → init_primary ratios s
        ≡ returns (record s {
          nanos_to_lapic_ticks_ratio = ratio;
          log = s.log ++ set_timer_mode_one_shot ∷ set_timer_divide_one ∷ enable_timer ∷ [];
        })
  unfolding init_primary
  init_primary_run ratio s e = rw e
