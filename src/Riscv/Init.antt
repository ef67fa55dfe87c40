-- ===== src/Riscv/Init.antt =====
-- The initialisation of platforms/axplat-riscv64-qemu-virt/src/init.rs, with the feature `smp`; `config`
-- tells the others. The trap vectors are set up outside the state that is modelled here.
use axplat_crates.Prelude.{ℕ, if◌then◌else◌}
use axplat_crates.Irq.{HandlerTable}
use axplat_crates.Riscv.Irq
use axplat_crates.Riscv.Irq.{IrqState, max_irq_count}
use axplat_crates.Riscv.Time
use axplat_crates.Riscv.Time.{Config, TimeState}

module _ {Handler : Type 0} (handlers : HandlerTable Handler max_irq_count) (config : Config) where
  pub record RiscvState : Type 0 where
    pub irq : IrqState handlers
    pub time : TimeState

  -- `timestamp` is what the RTC reads, `ticks` what the counter does.
  pub init_early : (timestamp ticks : ℕ) → RiscvState → RiscvState
  init_early timestamp ticks s = record s { time = Time.init_early config timestamp ticks s.time }

  abbrev init_irqs : RiscvState → RiscvState
  init_irqs s = if config.irq then record s { irq = Irq.init_percpu handlers s.irq } else s

  pub init_later : RiscvState → RiscvState
  init_later s = let s' = init_irqs s in record s' { time = Time.init_percpu config s'.time }

  pub init_later_secondary : RiscvState → RiscvState
  init_later_secondary s =
      let s' = init_irqs s in record s' { time = Time.init_percpu config s'.time }
