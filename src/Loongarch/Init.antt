-- ===== src/Loongarch/Init.antt =====
-- The initialisation of platforms/axplat-loongarch64-qemu-virt/src/init.rs, with the features `irq` and
-- `smp`. The trap vectors are set up outside the state that is modelled here.
pub mod Order
mod Tests
use axplat_crates.Prelude.{ℕ, Bool, true, Exec, returns, ◌>>=◌}
use axplat_crates.Irq.{HandlerTable}
use axplat_crates.Loongarch.Irq
use axplat_crates.Loongarch.Irq.{IrqState, max_irq_count, timer_irq, ipi_irq}
use axplat_crates.Loongarch.Time
use axplat_crates.Loongarch.Time.{TimeState, Calendar}

module _ {Handler : Type 0} (handlers : HandlerTable Handler max_irq_count) where
  pub record LoongarchState : Type 0 where
    pub irq : IrqState handlers
    pub time : TimeState

  -- The frequency, the two registers of the RTC and the counter are read; `rtc` is the feature.
  pub init_early :
      Calendar
      → (freq : ℕ) (rtc : Bool) (toy_high toy_low ticks : ℕ) → LoongarchState
      → Exec LoongarchState
  init_early calendar freq rtc toy_high toy_low ticks s = do
    t ← Time.init_early calendar freq rtc toy_high toy_low ticks s.time
    returns (record s { time = t })

  -- `time::init_percpu`, with its call of the interrupt controller.
  abbrev pub init_timer : LoongarchState → LoongarchState
  init_timer s = record {
    irq = Irq.set_enable handlers timer_irq true s.irq;
    time = Time.init_percpu true timer_irq s.time;
  }

  abbrev pub enable_ipi : LoongarchState → LoongarchState
  enable_ipi s = record s { irq = Irq.set_enable handlers ipi_irq true s.irq }

  pub init_later : LoongarchState → LoongarchState
  init_later s = enable_ipi (init_timer s)

  pub init_later_secondary : LoongarchState → LoongarchState
  init_later_secondary s = enable_ipi (init_timer s)
