-- ===== src/X86/Init/Order.antt =====
-- The order of the calls in platforms/axplat-x86-pc/src/init.rs meets what its modules ask.
use axplat_crates.Prelude.{ℕ, Bool, Option, some, List, Exec}
use axplat_crates.Irq.{HandlerTable}
use axplat_crates.Time.Ratio.{RatioIf}
use axplat_crates.X86.Irq.{max_irq_count}
use axplat_crates.X86.Mem.{MemoryRegion}
use axplat_crates.X86.Time.{TimeState}
use axplat_crates.X86.Time
use axplat_crates.X86.Init.{X86State, init_early, init_later, init_later_secondary}

module _ {Handler : Type 0} (handlers : HandlerTable Handler max_irq_count) (ratios : RatioIf)
    (freq_info : Option ℕ) (tsc : ℕ) (rtc : Bool) (timestamp : ℕ) (rs : List MemoryRegion)
    (has_x2apic : Bool) (base phys_virt_offset : ℕ) where
  abbrev early : X86State handlers ratios → Exec (X86State handlers ratios)
  early = init_early handlers ratios freq_info tsc rtc timestamp (some (some rs))

  abbrev later : X86State handlers ratios → Exec (X86State handlers ratios)
  later = init_later handlers ratios has_x2apic base phys_virt_offset

  abbrev secondary : X86State handlers ratios → Exec (X86State handlers ratios)
  secondary = init_later_secondary handlers ratios
