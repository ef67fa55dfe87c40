-- ===== src/X86/Time/Tests.antt =====
-- The theorems on the clock of platforms/axplat-x86-pc at 4 GHz.
use axplat_crates.Prelude.{
  ℕ, ◌*◌, ◌/◌, ◌≡◌, refl, true, some, [], ◌∷◌, arith, ◌==◌, if◌then◌else◌, returns, panics,
}
use axplat_crates.Time.{wall_time_nanos}
use axplat_crates.Time.Ratio.{RatioIf}
use axplat_crates.X86.Time.{
  TimeState, ticks_to_nanos, current_ticks, init_early, init_primary, set_oneshot_timer, arm,
  time_if, default_freq_mhz, set_timer_mode_one_shot, set_timer_divide_one, enable_timer,
}
use axplat_crates.X86.Time.Laws.{wall_time_nanos-behind}

abbrev pairs : RatioIf
pairs = record {
  Ratio = ℕ × ℕ;
  zero_ratio = (0, 1);
  new = λ n d. if d == 0 then panics else returns (n, d);
  inverse = λ r. (r.1, r.0);
  mul_trunc = λ r v. v * r.0 / r.1;
  mul_trunc-zero_ratio = λ v. omega arith;
}

abbrev fresh : TimeState pairs
fresh = record {
  nanos_to_lapic_ticks_ratio = (0, 1);
  init_tick = 0;
  cpu_freq_mhz = default_freq_mhz;
  rtc_epochoffset_nanos = 0;
  log = [];
}

-- As `init_primary` leaves it.
abbrev started : TimeState pairs
started = record fresh {
  nanos_to_lapic_ticks_ratio = (1_000_000_000, 1_000_000_000);
  log = set_timer_mode_one_shot ∷ set_timer_divide_one ∷ enable_timer ∷ [];
}

starts : init_primary pairs fresh ≡ returns started
unfolding init_primary
starts = refl

-- At 1 ms, for 3 ms, and for a time that is past.
set_oneshot_timer_run :
    (set_oneshot_timer pairs 4_000_000 3_000_000 started ≡ returns (arm pairs 2_000_000 started))
    × (set_oneshot_timer pairs 4_000_000 1_000_000 started ≡ returns (arm pairs 1 started))
unfolding set_oneshot_timer ticks_to_nanos
set_oneshot_timer_run = (refl, refl)

-- At the 2 GHz that the processor tells, the counter has run for 2 s, and then for 4 s more.
wall_time_nanos-behind_example :
    (t : TimeState pairs) × (init_early pairs (some 2_000) 4_000_000_000 true 1_700_000_000 fresh
      ≡ returns t)
    × (wall_time_nanos (time_if pairs t) (current_ticks pairs t 12_000_000_000)
        ≡ returns 1_700_000_002_000_000_000)
wall_time_nanos-behind_example =
    wall_time_nanos-behind pairs (some 2_000) 4_000_000_000 12_000_000_000 1_700_000_000 fresh
      (omega arith) (omega arith) (omega arith) (omega arith) (omega arith)
