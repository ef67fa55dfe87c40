-- ===== src/Riscv/Irq/Ipi.antt =====
-- The harts that `send_ipi` of platforms/axplat-riscv64-qemu-virt/src/irq.rs reaches.
use axplat_crates.Prelude.{
  ℕ, zero, suc, ◌+◌, ◌%◌, ◌^◌, ◌≤◌, ◌<◌, ◌≡◌, ap, Bool, true, false, not, ◌&&◌, List, [], ◌∷◌,
  arith, returns, leb, ltb, ◌==◌, if◌then◌else◌, append_assoc, append-nil, Bool-cases, inl, inr,
}
use axplat_crates.Irq.{HandlerTable, current, other, all_except_current}
use axplat_crates.Riscv.Irq.{
  max_irq_count, Event, sbi_send_ipi, IrqState, send_others, send_ipi, emit,
}
use axplat_crates.Riscv.Irq.Handle.{after}

-- The CPUs i, …, i + n - 1 without `cpu_id`, in order.
abbrev pub cpus_except : ℕ → ℕ → ℕ → List ℕ
cpus_except zero i cpu_id = []
cpus_except (suc n) i cpu_id =
    let rest = cpus_except n (i + 1) cpu_id in if i == cpu_id then rest else i ∷ rest

abbrev pub occurs : ℕ → List ℕ → Bool
occurs x [] = false
occurs x (y ∷ ys) = if x == y then true else occurs x ys

-- `cpus_except` holds each CPU of the range but the one.
occurs-cpus_except :
    (n i cpu_id x : ℕ)
    → occurs x (cpus_except n i cpu_id) ≡ (leb i x && ltb x (i + n) && not (x == cpu_id))
occurs-cpus_except zero i cpu_id x = ground arith
occurs-cpus_except (suc n) i cpu_id x = ground (arith, occurs-cpus_except n (i + 1) cpu_id x)

abbrev pub ipis : {Handler : Type 0} → List ℕ → List (Event Handler)
ipis [] = []
ipis (i ∷ is) = sbi_send_ipi (2 ^ i) ∷ ipis is

module _ {Handler : Type 0} (handlers : HandlerTable Handler max_irq_count) where
  send_others_lem :
      (n i cpu_id : ℕ) (s : IrqState handlers)
      → i + n ≤ 64
      → send_others handlers n i cpu_id s ≡ after handlers s (ipis (cpus_except n i cpu_id))
  unfolding send_others
  send_others_lem zero i cpu_id s h = rw append-nil
  send_others_lem (suc n) i cpu_id s h = elim (Bool-cases (i == cpu_id)) [
    | inl self ↦ rw self (send_others_lem n (i + 1) cpu_id s (omega arith))
    | inr peer ↦
        let small : i % 64 ≡ i = omega arith in
        rw (
          peer,
          small,
          send_others_lem n (i + 1) cpu_id (emit handlers (sbi_send_ipi (2 ^ i)) s) (omega arith),
          append_assoc,
        )
  ]

  -- On up to 64 CPUs, `send_ipi` to one CPU asks for an interrupt to the hart of that number, and
  -- to all but the current one for one to each of the others, in ascending order and each once.
  pub send_ipi_lem :
      (irq_num cpu_id cpu_num : ℕ) (s : IrqState handlers)
      → cpu_id < 64
      → cpu_num ≤ 64
      → (send_ipi handlers irq_num (current cpu_id) s
          ≡ returns (after handlers s (ipis (cpu_id ∷ []))))
        × (send_ipi handlers irq_num (other cpu_id) s
            ≡ returns (after handlers s (ipis (cpu_id ∷ []))))
        × (send_ipi handlers irq_num (all_except_current cpu_id cpu_num) s
            ≡ returns (after handlers s (ipis (cpus_except cpu_num 0 cpu_id))))
        × ((x : ℕ) → occurs x (cpus_except cpu_num 0 cpu_id) ≡ (ltb x cpu_num && not (x == cpu_id)))
  unfolding send_ipi
  send_ipi_lem irq_num cpu_id cpu_num s one all =
      let small : cpu_id % 64 ≡ cpu_id = omega arith in
      (
        rw small,
        rw small,
        ap returns (send_others_lem cpu_num 0 cpu_id s (omega arith)),
        λ x. ground (arith, occurs-cpus_except cpu_num 0 cpu_id x),
      )
