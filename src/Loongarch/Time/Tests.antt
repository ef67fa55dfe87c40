-- ===== src/Loongarch/Time/Tests.antt =====
-- The theorems on the clock of platforms/axplat-loongarch64-qemu-virt at 100 MHz.
use axplat_crates.Prelude.{
  ◌+◌, ◌-◌, ◌^◌, ◌≡◌, refl, true, false, none, some, [], arith, returns, panics, ◌==◌,
  if◌then◌else◌,
}
use axplat_crates.Time.{wall_time_nanos}
use axplat_crates.Loongarch.Time.{
  TimeState, set_init_val, set_en, emit, Calendar, init_early, set_oneshot_timer, time_if,
}
use axplat_crates.Loongarch.Time.Laws.{toy_word, set_oneshot_timer-starts, init_early-date}

abbrev fresh : TimeState
fresh = record { nanos_per_tick = none; rtc_epochoffset_nanos = 0; log = [] }

-- Ten nanoseconds to a tick.
abbrev started : TimeState
started = record fresh { nanos_per_tick = some 10 }

-- The deadline was 20 ticks ago.
set_oneshot_timer-starts_example :
    (set_oneshot_timer true 100 800 started ≡ panics)
    × (set_oneshot_timer false 100 800 started
        ≡ returns (emit (set_en true) (emit (set_init_val (2 ^ 64 - 20)) started)))
set_oneshot_timer-starts_example =
    set_oneshot_timer-starts 10 100 800 started refl (omega arith) (omega arith) (omega arith)

-- It knows the first second of 2024 only.
abbrev calendar : Calendar
calendar year month day hour minute second nano =
    if year == 2_024 then returns (some (1_704_067_200_000_000_000 + nano)) else panics

init_early-date_example :
    (t : TimeState) × (init_early calendar 100_000_000 true 124 (toy_word 1 1 0 0 0 0) 5 fresh
      ≡ returns t)
    × (wall_time_nanos (time_if t) 8 ≡ returns 1_704_067_200_000_000_030)
init_early-date_example =
    init_early-date calendar 100_000_000 2_024 1 1 0 0 0 0 5 8 1_704_067_200_000_000_000 fresh
      (omega arith) refl (omega arith) (omega arith) (omega arith) (omega arith) (omega arith)
      (omega arith) (omega arith) (omega arith) refl (omega arith) (omega arith) (omega arith)
