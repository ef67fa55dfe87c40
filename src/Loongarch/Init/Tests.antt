-- ===== src/Loongarch/Init/Tests.antt =====
-- The initialisation of platforms/axplat-loongarch64-qemu-virt at 100 MHz.
use axplat_crates.Prelude.{ℕ, arith, ◌≡◌, refl, false, none, some, [], returns}
use axplat_crates.Irq.{HandlerTable}
use axplat_crates.Irq.Table.{function_table}
use axplat_crates.Loongarch.Irq.{max_irq_count}
use axplat_crates.Loongarch.Time.{Calendar}
use axplat_crates.Loongarch.Time.Start.{init_early-no_rtc}
use axplat_crates.Loongarch.Init.{LoongarchState, init_early}

abbrev handlers : HandlerTable ℕ max_irq_count
handlers = function_table ℕ max_irq_count

-- It knows no date.
abbrev calendar : Calendar
calendar = λ year month day hour minute second nano. returns none

abbrev off : LoongarchState handlers
off = record {
  irq = record { table = λ i. none; lie = record { timer = false; ipi = false }; log = [] };
  time = record { nanos_per_tick = none; rtc_epochoffset_nanos = 0; log = [] };
}

abbrev early : LoongarchState handlers
early = record off { time = record off.time { nanos_per_tick = some 10 } }

early_returns : init_early handlers calendar 100_000_000 false 124 0 5 off ≡ returns early
unfolding init_early
early_returns = rw (init_early-no_rtc calendar 100_000_000 124 0 5 off.time (omega arith) refl)
