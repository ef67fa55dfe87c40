-- ===== src/X86/Init.antt =====
-- The initialisation of platforms/axplat-x86-pc/src/init.rs, with the features `irq` and `smp`. The trap
-- vectors and the registers of the UART are set up outside the state that is modelled here.
pub mod Order
mod Tests
use axplat_crates.Prelude.{ℕ, Bool, Option, List, if◌then◌else◌, Exec, returns, undefined, ◌>>=◌}
use axplat_crates.Irq.{HandlerTable}
use axplat_crates.Mem.{RawRange}
use axplat_crates.Time.Ratio.{RatioIf}
use axplat_crates.X86.Irq
use axplat_crates.X86.Irq.{ApicState, max_irq_count}
use axplat_crates.X86.Mem
use axplat_crates.X86.Mem.{MemoryRegion}
use axplat_crates.X86.Time
use axplat_crates.X86.Time.{TimeState}

module _ {Handler : Type 0} (handlers : HandlerTable Handler max_irq_count) (ratios : RatioIf) where
  pub record X86State : Type 0 where
    pub apic : ApicState handlers
    pub time : TimeState ratios
    pub ram_regions : Option (List RawRange)

  -- `freq_info`, `tsc` and `timestamp` are what the CPU, its counter and the RTC tell, `rtc` is the
  -- feature, and `info` what the boot loader tells.
  pub init_early :
      (freq_info : Option ℕ) (tsc : ℕ) (rtc : Bool) (timestamp : ℕ)
      (info : Option (Option (List MemoryRegion)))
      → X86State
      → Exec X86State
  init_early freq_info tsc rtc timestamp info s = do
    t ← Time.init_early ratios freq_info tsc rtc timestamp s.time
    regions ← Mem.init info s.ram_regions
    returns (record s { time = t; ram_regions = regions })

  -- The timer is reached through the local APIC, whose use before it has a value is undefined.
  abbrev pub init_timer : X86State → Exec X86State
  init_timer s =
      if s.apic.local_apic
      then (Time.init_primary ratios s.time >>= λ t. returns (record s { time = t }))
      else undefined

  pub init_later : (has_x2apic : Bool) (base phys_virt_offset : ℕ) → X86State → Exec X86State
  init_later has_x2apic base phys_virt_offset s = do
    a ← Irq.init_primary handlers has_x2apic base phys_virt_offset s.apic
    init_timer (record s { apic = a })

  abbrev pub init_timer_secondary : X86State → Exec X86State
  init_timer_secondary s =
      if s.apic.local_apic
      then returns (record s { time = Time.init_secondary ratios s.time })
      else undefined

  pub init_later_secondary : X86State → Exec X86State
  init_later_secondary s = do
    a ← Irq.init_secondary handlers s.apic
    init_timer_secondary (record s { apic = a })
