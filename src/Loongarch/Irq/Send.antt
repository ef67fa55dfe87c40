-- ===== src/Loongarch/Irq/Send.antt =====
-- The IPIs that platforms/axplat-loongarch64-qemu-virt/src/irq.rs sends.
use Prim.Native.Nat.{bit_or}
use axplat_crates.Prelude.{
  ℕ, zero, suc, ◌+◌, ◌*◌, ◌^◌, ◌≤◌, ◌<◌, ◌≡◌, ap, ◌∙◌, true, not, List, [], ◌∷◌, ◌==◌,
  if◌then◌else◌, arith, Bool-cases, inl, inr, append_assoc, append-nil, as_u32,
}
use axplat_crates.Prelude.Joins.{bit_or-apart}
use axplat_crates.Irq.{HandlerTable, current, other, all_except_current}
use axplat_crates.Loongarch.Irq.{
  max_irq_count, make_ipi_send_value, Event, ipi_send, IrqState, emit, send_others, send_ipi,
}
use axplat_crates.Loongarch.Irq.Ipi.{after}

-- Blocking, to a CPU of fifteen bits, with vector 0.
make_ipi_send_value_lem :
    (cpu_id : ℕ) → cpu_id < 2 ^ 15 → make_ipi_send_value cpu_id 0 true ≡ cpu_id * 2 ^ 16 + 2 ^ 31
make_ipi_send_value_lem cpu_id h =
    let shifted : as_u32 (as_u32 cpu_id * 2 ^ 16) ≡ cpu_id * 2 ^ 16 = omega arith in
    let low : bit_or (cpu_id * 2 ^ 16) 0 ≡ cpu_id * 2 ^ 16 =
      omega (arith, bit_or-apart 0 31 (cpu_id * 2 ^ 16) (omega arith)) in
    rw (shifted, low) (omega (arith, bit_or-apart 1 31 (cpu_id * 2 ^ 16) (omega arith)))

-- The CPUs of `i..i + n` but one, in order.
abbrev pub cpus_except : ℕ → ℕ → ℕ → List ℕ
cpus_except zero i cpu_id = []
cpus_except (suc n) i cpu_id =
    if not (i == cpu_id) then i ∷ cpus_except n (i + 1) cpu_id else cpus_except n (i + 1) cpu_id

abbrev pub sends : {Handler : Type 0} → List ℕ → List (Event Handler)
sends [] = []
sends (i ∷ is) = ipi_send (i * 2 ^ 16 + 2 ^ 31) ∷ sends is

module _ {Handler : Type 0} (handlers : HandlerTable Handler max_irq_count) where
  send_others_lem :
      (n i cpu_id : ℕ) (s : IrqState handlers)
      → i + n ≤ 2 ^ 15
      → send_others handlers n i cpu_id s ≡ after handlers s (sends (cpus_except n i cpu_id))
  unfolding send_others
  send_others_lem zero i cpu_id s h = rw append-nil
  send_others_lem (suc n) i cpu_id s h = elim (Bool-cases (i == cpu_id)) [
    | inl self ↦ rw self (send_others_lem n (i + 1) cpu_id s (omega arith))
    | inr peer ↦ rw peer (
        ap (λ v. send_others handlers n (i + 1) cpu_id (emit handlers (ipi_send v) s))
          (make_ipi_send_value_lem i (omega arith))
        ∙ send_others_lem n (i + 1) cpu_id (emit handlers (ipi_send (i * 2 ^ 16 + 2 ^ 31)) s)
            (omega arith)
        ∙ rw append_assoc)
  ]

  -- On up to 2 ^ 15 CPUs, `send_ipi` writes one blocking request of vector 0 for each target: the
  -- number of the CPU stands from bit 16 on, and bit 31 asks to block. The targets are the one CPU,
  -- or all but the current one, in ascending order.
  pub send_ipi-writes :
      (irq_num cpu_id cpu_num : ℕ) (s : IrqState handlers)
      → cpu_id < 2 ^ 15
      → cpu_num ≤ 2 ^ 15
      → (send_ipi handlers irq_num (current cpu_id) s ≡ after handlers s (sends (cpu_id ∷ [])))
        × (send_ipi handlers irq_num (other cpu_id) s ≡ after handlers s (sends (cpu_id ∷ [])))
        × (send_ipi handlers irq_num (all_except_current cpu_id cpu_num) s
            ≡ after handlers s (sends (cpus_except cpu_num 0 cpu_id)))
  unfolding send_ipi
  send_ipi-writes irq_num cpu_id cpu_num s one all =
      let value : make_ipi_send_value cpu_id 0 true ≡ cpu_id * 2 ^ 16 + 2 ^ 31 =
        make_ipi_send_value_lem cpu_id one in
      (
        ap (λ v. emit handlers (ipi_send v) s) value,
        ap (λ v. emit handlers (ipi_send v) s) value,
        send_others_lem cpu_num 0 cpu_id s (omega arith),
      )
