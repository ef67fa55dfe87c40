-- ===== src/Riscv/Irq/Contract.antt =====
-- The handlers that platforms/axplat-riscv64-qemu-virt/src/irq.rs keeps are a map from causes.
use axplat_crates.Prelude.{
  ℕ, ◌≤◌, ◌<◌, ◌≡◌, ◌≢◌, refl, ◌⊎◌, inl, inr, true, false, Option, none, some, arith, ◌==◌,
  if◌then◌else◌, Exec, returns, panics, u64_mod,
}
use axplat_crates.Prelude.Bits.{bit_and-pow_of_lt, bit_and-pow_of_le}
use axplat_crates.Irq.{HandlerTable}
use axplat_crates.Irq.Contract.{KeepsHandlers}
use axplat_crates.Riscv.Irq.{
  intc_irq_base, s_soft, s_timer, s_ext, max_irq_count, with_cause, IrqState, register, unregister,
  set_enable, irq_if,
}

-- The causes that can have a handler: the timer, the software interrupt, the devices of the table.
abbrev pub IsLegal : ℕ → Type 0
IsLegal irq = (irq ≡ s_timer) ⊎ ((irq ≡ s_soft) ⊎ (irq < max_irq_count))

-- The four branches of `with_cause`.
module _ {ℓ} {A : Type ℓ} (a b c d : Exec A) where
  pub with_cause-timer : with_cause s_timer a b c d ≡ a
  unfolding with_cause
  with_cause-timer = refl

  pub with_cause-soft : with_cause s_soft a b c d ≡ b
  unfolding with_cause
  with_cause-soft = refl

  pub with_cause-ext : with_cause s_ext a b c d ≡ c
  unfolding with_cause
  with_cause-ext = refl

pub with_cause-device {ℓ} :
    {A : Type ℓ} (cause : ℕ)
    → cause < intc_irq_base
    → (a b c d : Exec A) → with_cause cause a b c d ≡ d
unfolding with_cause
with_cause-device cause h a b c d = ground (arith, bit_and-pow_of_lt 63 cause h)

-- Any other cause from the CPU.
pub with_cause-unknown {ℓ} :
    {A : Type ℓ} (cause : ℕ)
    → intc_irq_base ≤ cause
    → cause < u64_mod
    → cause ≢ s_timer
    → cause ≢ s_soft
    → cause ≢ s_ext
    → (a b c d : Exec A) → with_cause cause a b c d ≡ panics
unfolding with_cause
with_cause-unknown cause h l t s e a b c d =
    ground (arith, bit_and-pow_of_le 63 cause h (omega arith))

module _ {Handler : Type 0} (handlers : HandlerTable Handler max_irq_count) where
  open handlers use {lookup, register_result, lookup-register, unregister_result, lookup-unregister}

  -- The handler of a cause.
  abbrev pub handler_of : ℕ → IrqState handlers → Option Handler
  handler_of irq s =
      if irq == s_timer
      then s.timer_handler
      else if irq == s_soft
      then s.ipi_handler
      else lookup irq s.table

  register_new :
      (irq : ℕ) (h : Handler) (s : IrqState handlers)
      → IsLegal irq
      → handler_of irq s ≡ none
      → (s' : IrqState handlers) × (register handlers irq h s ≡ returns (true, s'))
        × ((j : ℕ) → handler_of j s' ≡ (if irq == j then some h else handler_of j s))
  unfolding register set_enable
  register_new irq h s (inl e) free = (
    record s { timer_handler = some h },
    rw e (rw with_cause-timer (ground arith)),
    λ j. ground arith,
  )
  register_new irq h s (inr (inl e)) free = (
    record s { ipi_handler = some h },
    rw e (rw with_cause-soft (ground arith)),
    λ j. ground arith,
  )
  register_new irq h s (inr (inr l)) free = (
    record s { table = (handlers.register_handler irq h s.table).1 },
    rw (with_cause-device irq (omega arith)) (ground (arith, register_result irq h s.table)),
    λ j. ground (arith, lookup-register irq j h s.table),
  )

  register_taken :
      (irq : ℕ) (h old : Handler) (s : IrqState handlers)
      → IsLegal irq
      → handler_of irq s ≡ some old
      → (s' : IrqState handlers) × (register handlers irq h s ≡ returns (false, s'))
        × ((j : ℕ) → handler_of j s' ≡ handler_of j s)
  unfolding register set_enable
  register_taken irq h old s (inl e) taken =
      (s, rw e (rw with_cause-timer (ground arith)), λ j. refl)
  register_taken irq h old s (inr (inl e)) taken =
      (s, rw e (rw with_cause-soft (ground arith)), λ j. refl)
  register_taken irq h old s (inr (inr l)) taken = (
    record s { table = (handlers.register_handler irq h s.table).1 },
    rw (with_cause-device irq (omega arith)) (ground (arith, register_result irq h s.table)),
    λ j. ground (arith, lookup-register irq j h s.table),
  )

  unregister_lem :
      (irq : ℕ) (s : IrqState handlers)
      → IsLegal irq
      → (s' : IrqState handlers) × (unregister handlers irq s ≡ returns (handler_of irq s, s'))
        × ((j : ℕ) → handler_of j s' ≡ (if irq == j then none else handler_of j s))
  unfolding unregister
  unregister_lem irq s (inl e) = (
    record s { timer_handler = none },
    rw e (rw with_cause-timer (ground arith)),
    λ j. ground arith,
  )
  unregister_lem irq s (inr (inl e)) =
      (record s { ipi_handler = none }, rw e (rw with_cause-soft (ground arith)), λ j. ground arith)
  unregister_lem irq s (inr (inr l)) = (
    record s { table = (handlers.unregister_handler irq s.table).1 },
    rw (with_cause-device irq (omega arith)) (ground (arith, unregister_result irq s.table)),
    λ j. ground (arith, lookup-unregister irq j s.table),
  )

  -- For the timer cause, the software cause and the IRQs below 1024, `register` and `unregister`
  -- keep a map of handlers: a free cause takes the handler, a taken one refuses and keeps its own,
  -- `unregister` returns and removes it, and no call touches another cause.
  pub irq_if-KeepsHandlers : KeepsHandlers (irq_if handlers) (λ irq s. IsLegal irq) handler_of
  irq_if-KeepsHandlers = record {
    register_new = register_new;
    register_taken = register_taken;
    unregister_lem = unregister_lem;
  }
