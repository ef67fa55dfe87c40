-- ===== src/Loongarch/Irq/Tests.antt =====
-- The theorems on the interrupts of platforms/axplat-loongarch64-qemu-virt at concrete inputs.
use axplat_crates.Prelude.{
  ℕ, ◌<◌, ◌≡◌, true, false, none, some, [], ◌∷◌, arith, ◌==◌, if◌then◌else◌,
}
use axplat_crates.Irq.{HandlerTable, current, other, all_except_current}
use axplat_crates.Irq.Contract.{KeepsHandlers}
use axplat_crates.Irq.Table.{function_table}
use axplat_crates.Loongarch.Irq.{
  max_irq_count, ipi_irq, ran, ipi_clear, IrqState, handle, send_ipi, irq_if,
}
use axplat_crates.Loongarch.Irq.Contract.{loongarch_if-KeepsHandlers}
use axplat_crates.Loongarch.Irq.Ipi.{after, count_ones, handle-ipi}
use axplat_crates.Loongarch.Irq.Send.{sends, send_ipi-writes}

-- Handlers are told apart by numbers.
abbrev handlers : HandlerTable ℕ max_irq_count
handlers = function_table ℕ max_irq_count

-- The IPI has handler 7.
abbrev booted : IrqState handlers
booted = record {
  table = λ i. if i == ipi_irq then some 7 else none;
  lie = record { timer = false; ipi = true };
  log = [];
}

loongarch_if-KeepsHandlers_example :
    KeepsHandlers
      (irq_if handlers 0)
      (λ irq s. irq < max_irq_count)
      (λ irq s. handlers.lookup irq s.table)
loongarch_if-KeepsHandlers_example = loongarch_if-KeepsHandlers handlers 0

-- Two bits are set.
handle-ipi_example :
    handle handlers 9 ipi_irq booted
    ≡ some (after handlers booted (ipi_clear 9 ∷ ran 7 ∷ ran 7 ∷ []))
unfolding count_ones
handle-ipi_example = handle-ipi handlers 9 booted (omega arith)

send_ipi-writes_example :
    (send_ipi handlers 0 (current 1) booted ≡ after handlers booted (sends (1 ∷ [])))
    × (send_ipi handlers 0 (other 1) booted ≡ after handlers booted (sends (1 ∷ [])))
    × (send_ipi handlers 0 (all_except_current 1 3) booted
        ≡ after handlers booted (sends (0 ∷ 2 ∷ [])))
send_ipi-writes_example = send_ipi-writes handlers 0 1 3 booted (omega arith) (omega arith)
