-- ===== src/Riscv/Irq/Tests.antt =====
-- The theorems on the interrupts of platforms/axplat-riscv64-qemu-virt at concrete inputs.
use axplat_crates.Prelude.{
  ℕ, ◌+◌, ◌≡◌, refl, Bool, not, ◌&&◌, none, some, [], ◌∷◌, arith, returns, panics, ltb, ◌==◌,
  if◌then◌else◌,
}
use axplat_crates.Irq.{HandlerTable, current, other, all_except_current}
use axplat_crates.Irq.Contract.{KeepsHandlers}
use axplat_crates.Irq.Table.{function_table}
use axplat_crates.Riscv.Irq.{
  max_irq_count, s_timer, s_soft, s_ext, intc_irq_base, ran, clear_ssoft, sbi_send_ipi, IrqState,
  register, unregister, handle, send_ipi, irq_if,
}
use axplat_crates.Riscv.Irq.Contract.{IsLegal, handler_of, irq_if-KeepsHandlers}
use axplat_crates.Riscv.Irq.Handle.{after, handle_lem, unknown_cause_panics}
use axplat_crates.Riscv.Irq.Ipi.{ipis, occurs, send_ipi_lem}

-- Handlers are told apart by numbers.
abbrev handlers : HandlerTable ℕ max_irq_count
handlers = function_table ℕ max_irq_count

abbrev booted : IrqState handlers
booted = record {
  timer_handler = some 7;
  ipi_handler = none;
  table = λ i. if i == 0 then some 8 else none;
  ssoft = Bool.true;
  stimer = Bool.true;
  sext = Bool.true;
  log = [];
}

send_to_others :
    send_ipi handlers 1 (all_except_current 1 3) booted
    ≡ returns (record booted { log = sbi_send_ipi 1 ∷ sbi_send_ipi 4 ∷ [] })
unfolding send_ipi
send_to_others = refl

irq_if-KeepsHandlers_example :
    KeepsHandlers (irq_if handlers) (λ irq s. IsLegal irq) (handler_of handlers)
irq_if-KeepsHandlers_example = irq_if-KeepsHandlers handlers

handle_lem_example :
    (handle handlers s_timer booted ≡ returns (after handlers booted (ran 7 ∷ [])))
    × (handle handlers s_soft booted ≡ returns (after handlers booted (clear_ssoft ∷ [])))
    × (handle handlers s_ext booted ≡ returns (after handlers booted (ran 8 ∷ [])))
handle_lem_example = handle_lem handlers booted

unknown_cause_panics_example :
    (handle handlers (intc_irq_base + 2) booted ≡ panics)
    × (register handlers (intc_irq_base + 2) 9 booted ≡ panics)
    × (unregister handlers (intc_irq_base + 2) booted ≡ panics)
unknown_cause_panics_example =
    unknown_cause_panics handlers (intc_irq_base + 2) 9 booted (omega arith) (omega arith)
      (omega arith) (omega arith) (omega arith)

send_ipi_lem_example :
    (send_ipi handlers 1 (current 1) booted ≡ returns (after handlers booted (ipis (1 ∷ []))))
    × (send_ipi handlers 1 (other 1) booted ≡ returns (after handlers booted (ipis (1 ∷ []))))
    × (send_ipi handlers 1 (all_except_current 1 3) booted
        ≡ returns (after handlers booted (ipis (0 ∷ 2 ∷ []))))
    × ((x : ℕ) → occurs x (0 ∷ 2 ∷ []) ≡ (ltb x 3 && not (x == 1)))
send_ipi_lem_example = send_ipi_lem handlers 1 1 3 booted (omega arith) (omega arith)
