-- ===== src/Arm/Timer/Tests.antt =====
-- The theorems on the ARM generic timer of a counter at 500 MHz.
use axplat_crates.Prelude.{
  ℕ, ◌+◌, ◌*◌, ◌/◌, ◌≡◌, ◌<◌, refl, true, false, [], ◌==◌, if◌then◌else◌, arith, returns, panics,
}
use axplat_crates.Time.{wall_time_nanos}
use axplat_crates.Time.Ratio.{RatioIf}
use axplat_crates.Arm.Timer.{
  ticks_to_nanos, nanos_to_ticks, TimerState, set_countdown, emit, set_oneshot_timer, init_rtc,
  init_early, time_if,
}
use axplat_crates.Arm.Timer.Laws.{
  set_oneshot_timer-reaches, set_oneshot_timer-far, wall_time_nanos-init_rtc,
}

-- Ratios as pairs, where 0 / 0 stands for zero.
abbrev pairs : RatioIf
pairs = record {
  Ratio = ℕ × ℕ;
  zero_ratio = (0, 1);
  new = λ n d. if d == 0 then panics else returns (n, d);
  inverse = λ r. (r.1, r.0);
  mul_trunc = λ r v. v * r.0 / r.1;
  mul_trunc-zero_ratio = λ v. omega arith;
}

-- Two nanoseconds to a tick.
abbrev started : TimerState pairs
started = record {
  cntpct_to_nanos_ratio = (1_000_000_000, 500_000_000);
  nanos_to_cntpct_ratio = (500_000_000, 1_000_000_000);
  rtc_epochoffset_nanos = 0;
  log = [];
}

starts :
    init_early pairs 500_000_000 (record started { nanos_to_cntpct_ratio = (0, 1) })
    ≡ returns started
unfolding init_early
starts = refl

set_oneshot_timer-reaches_example :
    (count : ℕ) × (set_oneshot_timer pairs true 100 1_000 started
      ≡ returns (emit pairs (set_countdown count) started))
    × (100 + count ≡ 500)
unfolding nanos_to_ticks
set_oneshot_timer-reaches_example =
    set_oneshot_timer-reaches pairs true 100 1_000 started (omega arith)

set_oneshot_timer-far_example :
    (count : ℕ) × (set_oneshot_timer pairs true 100 10_000_000_000 started ≡ panics)
    × (set_oneshot_timer pairs false 100 10_000_000_000 started
        ≡ returns (emit pairs (set_countdown count) started))
    × (100 + count < 5_000_000_000)
unfolding nanos_to_ticks
set_oneshot_timer-far_example = set_oneshot_timer-far pairs 100 10_000_000_000 started (omega arith)

wall_time_nanos-init_rtc_example :
    wall_time_nanos (time_if pairs (init_rtc pairs 0x901_0000 1_700_000_000 50 started)) 60
    ≡ returns 1_700_000_000_000_000_020
unfolding ticks_to_nanos
wall_time_nanos-init_rtc_example =
    wall_time_nanos-init_rtc pairs 0x901_0000 1_700_000_000 50 60 started (omega arith)
      (omega arith) (omega arith) (omega arith)
