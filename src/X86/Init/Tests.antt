-- ===== src/X86/Init/Tests.antt =====
-- The initialisation of platforms/axplat-x86-pc with the memory map of a small machine.
use axplat_crates.Prelude.{
  ℕ, ◌*◌, ◌/◌, true, false, none, some, List, [], ◌∷◌, ◌==◌, if◌then◌else◌, arith, Exec, returns,
  panics,
}
use axplat_crates.Irq.{HandlerTable}
use axplat_crates.Irq.Table.{function_table}
use axplat_crates.Time.Ratio.{RatioIf}
use axplat_crates.X86.Irq.{max_irq_count}
use axplat_crates.X86.Mem.{MemoryRegion}
use axplat_crates.X86.Init.{X86State, init_early, init_later}

abbrev handlers : HandlerTable ℕ max_irq_count
handlers = function_table ℕ max_irq_count

abbrev pairs : RatioIf
pairs = record {
  Ratio = ℕ × ℕ;
  zero_ratio = (0, 1);
  new = λ n d. if d == 0 then panics else returns (n, d);
  inverse = λ r. (r.1, r.0);
  mul_trunc = λ r v. v * r.0 / r.1;
  mul_trunc-zero_ratio = λ v. omega arith;
}

abbrev off : X86State handlers pairs
off = record {
  apic = record {
    local_apic = false;
    is_x2apic = false;
    io_apic = false;
    table = λ i. none;
    log = [];
  };
  time = record {
    nanos_to_lapic_ticks_ratio = (0, 1);
    init_tick = 0;
    cpu_freq_mhz = 4000;
    rtc_epochoffset_nanos = 0;
    log = [];
  };
  ram_regions = none;
}

abbrev regions : List MemoryRegion
regions =
    record { base_address = 0; length = 0x9fc00; available = true }
    ∷ record { base_address = 0xf0000; length = 0x10000; available = false }
    ∷ record { base_address = 0x10_0000; length = 0x7f0_0000; available = true }
    ∷ []

abbrev early : X86State handlers pairs → Exec (X86State handlers pairs)
early = init_early handlers pairs (some 2400) 9_000_000 true 1_700_000_000 (some (some regions))

abbrev later : X86State handlers pairs → Exec (X86State handlers pairs)
later = init_later handlers pairs true 0xfee0_0000 0xffff_8000_0000_0000
