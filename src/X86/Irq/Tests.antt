-- ===== src/X86/Irq/Tests.antt =====
-- The theorems on the interrupts of platforms/axplat-x86-pc at concrete inputs.
use axplat_crates.Prelude.{
  ℕ, ◌≡◌, ◌≢◌, refl, true, false, none, some, [], ◌∷◌, arith, ◌==◌, if◌then◌else◌, returns, panics,
}
use axplat_crates.Irq.{HandlerTable, other}
use axplat_crates.Irq.Contract.{KeepsHandlers}
use axplat_crates.Irq.Table.{function_table}
use axplat_crates.X86.Irq.{
  max_irq_count, ran, port_write, lapic_built, lapic_enable, io_apic_new, end_of_interrupt,
  send_ipi_to, ApicState, init_primary, handle, send_ipi, irq_if,
}
use axplat_crates.X86.Irq.Contract.{IsVector, x86_if-KeepsHandlers}
use axplat_crates.X86.Irq.Effects.{after, handle-ends, send_ipi-distinct, init_primary_lem}

-- Handlers are told apart by numbers.
abbrev handlers : HandlerTable ℕ max_irq_count
handlers = function_table ℕ max_irq_count

abbrev off : ApicState handlers
off = record { local_apic = false; is_x2apic = false; io_apic = false; table = λ i. none; log = [] }

-- The timer's vector has handler 7.
abbrev booted : ApicState handlers
booted = record {
  local_apic = true;
  is_x2apic = false;
  io_apic = true;
  table = λ i. if i == 0xf0 then some 7 else none;
  log = [];
}

x86_if-KeepsHandlers_example :
    KeepsHandlers (irq_if handlers) (IsVector handlers) (λ irq s. handlers.lookup irq s.table)
x86_if-KeepsHandlers_example = x86_if-KeepsHandlers handlers

handle-ends_example :
    handle handlers 0xf0 booted ≡ returns (after handlers booted (ran 7 ∷ end_of_interrupt ∷ []))
handle-ends_example = handle-ends handlers 0xf0 booted refl

send_ipi-distinct_example :
    (x y : ℕ) × (send_ipi handlers 0xf3 (other 1) booted
      ≡ returns (after handlers booted (send_ipi_to 0xf3 x ∷ [])))
    × (send_ipi handlers 0xf3 (other 2) booted
        ≡ returns (after handlers booted (send_ipi_to 0xf3 y ∷ [])))
    × (x ≢ y)
send_ipi-distinct_example =
    send_ipi-distinct handlers 0xf3 1 2 booted refl (omega arith) (omega arith) (omega arith)

init_primary_lem_example :
    (t : ApicState handlers) × (init_primary handlers true 0xfee0_0000 0 off ≡ returns t)
    × (t.local_apic ≡ true)
    × (t.io_apic ≡ true)
    × (t.log
        ≡ port_write 0x21 0xff
          ∷ port_write 0xA1 0xff
          ∷ lapic_built none
          ∷ lapic_enable
          ∷ io_apic_new 0xFEC0_0000
          ∷ [])
    × (init_primary handlers true 0xfee0_0000 0 t ≡ panics)
init_primary_lem_example = init_primary_lem handlers true 0xfee0_0000 0 off refl
