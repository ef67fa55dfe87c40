-- ===== src/Loongarch/Irq/Contract.antt =====
-- The handlers that platforms/axplat-loongarch64-qemu-virt/src/irq.rs keeps, and the lines it enables.
use axplat_crates.Prelude.{
  ℕ, ◌<◌, ◌≡◌, ap, ◌∙◌, Bool, true, false, ◌&&◌, none, some, arith, ltb, ◌==◌, if◌then◌else◌,
  returns, Bool-cases, inl, inr,
}
use axplat_crates.Irq.{HandlerTable, is_none}
use axplat_crates.Irq.Contract.{KeepsHandlers}
use axplat_crates.Loongarch.Irq.{
  max_irq_count, timer_irq, ipi_irq, Lines, IrqState, set_enable, register, unregister, irq_if,
}

module _ {Handler : Type 0} (handlers : HandlerTable Handler max_irq_count) where
  open handlers use {lookup, register_result, lookup-register, unregister_result, lookup-unregister}

  table-set_enable :
      (irq : ℕ) (enabled : Bool) (s : IrqState handlers)
      → (set_enable handlers irq enabled s).table ≡ s.table
  unfolding set_enable
  table-set_enable irq enabled s = ground arith

  -- The line of an IRQ switched on or off.
  abbrev pub switch : ℕ → Bool → Lines → Lines
  switch irq enabled l =
      if irq == timer_irq
      then record l { timer = enabled }
      else if irq == ipi_irq
      then record l { ipi = enabled }
      else l

  pub lie-set_enable :
      (irq : ℕ) (enabled : Bool) (s : IrqState handlers)
      → (set_enable handlers irq enabled s).lie ≡ switch irq enabled s.lie
  unfolding set_enable
  lie-set_enable irq enabled s = ground arith

  pub table-register :
      (irq : ℕ) (h : Handler) (s : IrqState handlers)
      → (register handlers irq h s).1.table ≡ (handlers.register_handler irq h s.table).1
  unfolding register
  table-register irq h s = elim (Bool-cases (handlers.register_handler irq h s.table).0) [
    | inl e ↦ rw e (rw table-set_enable)
    | inr e ↦ rw e
  ]

  pub result-register :
      (irq : ℕ) (h : Handler) (s : IrqState handlers)
      → (register handlers irq h s).0 ≡ (handlers.register_handler irq h s.table).0
  unfolding register
  result-register irq h s = elim (Bool-cases (handlers.register_handler irq h s.table).0) [
    | inl e ↦ rw e
    | inr e ↦ rw e
  ]

  lie-register :
      (irq : ℕ) (h : Handler) (s : IrqState handlers)
      → (register handlers irq h s).1.lie
        ≡ (if (handlers.register_handler irq h s.table).0 then switch irq true s.lie else s.lie)
  unfolding register
  lie-register irq h s = elim (Bool-cases (handlers.register_handler irq h s.table).0) [
    | inl e ↦ rw e (rw lie-set_enable)
    | inr e ↦ rw e
  ]

  -- `register` switches the line of the timer or of the IPI on where the table takes the handler and
  -- only there, and `unregister` switches it off whether there was a handler or not. They leave the
  -- other line as it was, and both lines for another IRQ.
  registration_switches :
      (irq : ℕ) (h : Handler) (s : IrqState handlers)
      → ((register handlers irq h s).0 ≡ (ltb irq max_irq_count && is_none (lookup irq s.table)))
        × ((register handlers irq h s).1.lie ≡ (
            if ltb irq max_irq_count && is_none (lookup irq s.table)
            then switch irq true s.lie
            else s.lie))
        × ((unregister handlers irq s).1.lie ≡ switch irq false s.lie)
  unfolding register unregister
  registration_switches irq h s =
      let done : (handlers.register_handler irq h s.table).0
          ≡ (ltb irq max_irq_count && is_none (lookup irq s.table)) =
        register_result irq h s.table in
      (result-register irq h s ∙ done, lie-register irq h s ∙ rw done, lie-set_enable irq false s)

  lookup-register_lem :
      (irq j : ℕ) (h : Handler) (s : IrqState handlers)
      → lookup j (register handlers irq h s).1.table ≡ (
          if ltb irq max_irq_count && is_none (lookup irq s.table) && irq == j
          then some h
          else lookup j s.table)
  lookup-register_lem irq j h s = rw (table-register irq h s, lookup-register irq j h s.table)

  register_new :
      (status irq : ℕ) (h : Handler) (s : IrqState handlers)
      → irq < max_irq_count
      → lookup irq s.table ≡ none
      → (s' : IrqState handlers) × ((irq_if handlers status).register irq h s ≡ returns (true, s'))
        × ((j : ℕ) → lookup j s'.table ≡ (if irq == j then some h else lookup j s.table))
  register_new status irq h s l free =
      let e : (register handlers irq h s).0 ≡ true =
        ground (arith, result-register irq h s, register_result irq h s.table) in
      (
        (register handlers irq h s).1,
        ap (λ (b : Bool). returns (b, (register handlers irq h s).1)) e,
        λ j. ground (arith, lookup-register_lem irq j h s),
      )

  register_taken :
      (status irq : ℕ) (h old : Handler) (s : IrqState handlers)
      → irq < max_irq_count
      → lookup irq s.table ≡ some old
      → (s' : IrqState handlers) × ((irq_if handlers status).register irq h s ≡ returns (false, s'))
        × ((j : ℕ) → lookup j s'.table ≡ lookup j s.table)
  register_taken status irq h old s l taken =
      let e : (register handlers irq h s).0 ≡ false =
        ground (arith, result-register irq h s, register_result irq h s.table) in
      (
        (register handlers irq h s).1,
        ap (λ (b : Bool). returns (b, (register handlers irq h s).1)) e,
        λ j. ground (arith, lookup-register_lem irq j h s),
      )

  unregister_lem :
      (status irq : ℕ) (s : IrqState handlers)
      → irq < max_irq_count
      → (s' : IrqState handlers) × ((irq_if handlers status).unregister irq s
          ≡ returns (lookup irq s.table, s'))
        × ((j : ℕ) → lookup j s'.table ≡ (if irq == j then none else lookup j s.table))
  unfolding unregister
  unregister_lem status irq s l = (
    (unregister handlers irq s).1,
    rw (table-set_enable irq false s, unregister_result irq s.table),
    λ j. rw (table-set_enable irq false s, lookup-unregister irq j s.table),
  )

  -- For the IRQs below 13, `register` and `unregister` keep a map of handlers: a free IRQ takes the
  -- handler, a taken one refuses and keeps its own, `unregister` returns and removes it, and no
  -- call touches another IRQ.
  pub loongarch_if-KeepsHandlers :
      (status : ℕ)
      → KeepsHandlers
          (irq_if handlers status)
          (λ irq s. irq < max_irq_count)
          (λ irq s. lookup irq s.table)
  loongarch_if-KeepsHandlers status = record {
    register_new = register_new status;
    register_taken = register_taken status;
    unregister_lem = unregister_lem status;
  }
