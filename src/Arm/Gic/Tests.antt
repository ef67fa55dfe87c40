-- ===== src/Arm/Gic/Tests.antt =====
-- The theorems on the interrupts of platforms/axplat-arm-peripherals at concrete inputs.
use axplat_crates.Prelude.{
  ℕ, ◌≡◌, refl, Bool, true, false, none, some, [], ◌∷◌, ◌++◌, returns, panics, Exec, ltb, ◌==◌,
  if◌then◌else◌,
}
use axplat_crates.Irq.{HandlerTable, current, other, all_except_current}
use axplat_crates.Irq.Contract.{KeepsHandlers}
use axplat_crates.Irq.Table.{function_table}
use axplat_crates.Arm.Gic.{
  max_irq_count, Ack, other_intid, sgi, set_irq_enable, send_sgi, current_cpu, target_list,
  all_other, GicState, register_handler, unregister_handler, send_ipi, irq_if,
}
use axplat_crates.Arm.Gic.Contract.{IsTableIrq, gic_if-KeepsHandlers, registration_enables}
use axplat_crates.Arm.Gic.Handle.{after, send_ipi-targets}

-- Handlers are told apart by numbers.
abbrev handlers : HandlerTable ℕ max_irq_count
handlers = function_table ℕ max_irq_count

abbrev off : GicState handlers
off = record { gic = false; trap_op = false; table = λ i. none; log = [] }

-- IRQ 30, the timer's, has handler 7.
abbrev booted : GicState handlers
booted = record {
  gic = true;
  trap_op = true;
  table = λ i. if i == 30 then some 7 else none;
  log = [];
}

abbrev sgi_number : ℕ → Exec ℕ
sgi_number n = if ltb n 16 then returns n else panics

-- 1020 and above
abbrev is_special : Ack → Bool
is_special (other_intid i) = ltb 1019 i
is_special (sgi i cpu) = false

gic_if-KeepsHandlers_example :
    KeepsHandlers
      (irq_if handlers sgi_number is_special false (other_intid 30))
      (IsTableIrq handlers)
      (λ irq s. handlers.lookup irq s.table)
gic_if-KeepsHandlers_example =
    gic_if-KeepsHandlers handlers sgi_number is_special false (other_intid 30)

registration_enables_example :
    (t t' : GicState handlers) × (register_handler handlers 33 8 booted ≡ returns (true, t))
    × (t.log ≡ [] ++ set_irq_enable 33 true ∷ [])
    × (unregister_handler handlers 33 booted ≡ returns (none, t'))
    × (t'.log ≡ [] ++ set_irq_enable 33 false ∷ [])
registration_enables_example = registration_enables handlers 33 8 booted refl

send_ipi-targets_example :
    (send_ipi handlers sgi_number 1 (current 0) booted
      ≡ returns (after handlers booted (send_sgi 1 current_cpu ∷ [])))
    × (send_ipi handlers sgi_number 1 (other 0) booted
        ≡ returns (after handlers booted (send_sgi 1 (target_list (0 ∷ [])) ∷ [])))
    × (send_ipi handlers sgi_number 1 (all_except_current 0 4) booted
        ≡ returns (after handlers booted (send_sgi 1 all_other ∷ [])))
send_ipi-targets_example = send_ipi-targets handlers sgi_number 1 1 0 4 booted refl refl
