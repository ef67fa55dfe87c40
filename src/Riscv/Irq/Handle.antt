-- ===== src/Riscv/Irq/Handle.antt =====
-- What `handle` of platforms/axplat-riscv64-qemu-virt/src/irq.rs does for each cause.
use axplat_crates.Prelude.{
  ℕ, ◌≤◌, ◌<◌, ◌≡◌, ◌≢◌, refl, Option, none, some, List, [], ◌∷◌, ◌++◌, returns, panics, u64_mod,
  append_assoc, append-nil,
}
use axplat_crates.Irq.{HandlerTable}
use axplat_crates.Riscv.Irq.{
  intc_irq_base, s_soft, s_timer, s_ext, max_irq_count, Event, ran, clear_ssoft, IrqState, register,
  unregister, run_handler, handle,
}
use axplat_crates.Riscv.Irq.Contract.{
  with_cause-timer, with_cause-soft, with_cause-ext, with_cause-unknown,
}

-- The run of a handler that is there.
abbrev pub runs : {Handler : Type 0} → Option Handler → List (Event Handler)
runs none = []
runs (some h) = ran h ∷ []

module _ {Handler : Type 0} (handlers : HandlerTable Handler max_irq_count) where
  -- `s` after the given events.
  abbrev pub after : IrqState handlers → List (Event Handler) → IrqState handlers
  after s events = record s { log = s.log ++ events }

  run_handler-after :
      (o : Option Handler) (s : IrqState handlers) → run_handler handlers o s ≡ after s (runs o)
  run_handler-after none s = rw append-nil
  run_handler-after (some h) s = refl

  -- `handle` runs the timer's handler for the timer cause, and the software interrupt's for that
  -- cause, whose pending bit it then clears, whether or not a handler is there. For the external
  -- cause it runs the handler of IRQ 0. It changes nothing but the log.
  pub handle_lem :
      (s : IrqState handlers)
      → (handle handlers s_timer s ≡ returns (after s (runs s.timer_handler)))
        × (handle handlers s_soft s ≡ returns (after s (runs s.ipi_handler ++ clear_ssoft ∷ [])))
        × (handle handlers s_ext s ≡ returns (after s (runs (handlers.lookup 0 s.table))))
  unfolding handle
  handle_lem s = (
    rw (with_cause-timer, run_handler-after s.timer_handler s),
    rw (with_cause-soft, run_handler-after s.ipi_handler s, append_assoc),
    rw (
      with_cause-ext,
      handlers.handle_result 0 s.table,
      run_handler-after (handlers.lookup 0 s.table) s,
    ),
  )

  -- For every cause from the CPU other than the timer, the software and the external interrupt,
  -- `handle`, `register` and `unregister` panic.
  pub unknown_cause_panics :
      (cause : ℕ) (h : Handler) (s : IrqState handlers)
      → intc_irq_base ≤ cause
      → cause < u64_mod
      → cause ≢ s_timer
      → cause ≢ s_soft
      → cause ≢ s_ext
      → (handle handlers cause s ≡ panics)
        × (register handlers cause h s ≡ panics)
        × (unregister handlers cause s ≡ panics)
  unfolding handle register unregister
  unknown_cause_panics cause h s p l t so e = (
    rw (with_cause-unknown cause p l t so e),
    rw (with_cause-unknown cause p l t so e),
    rw (with_cause-unknown cause p l t so e),
  )
