-- ===== src/Arm/Gic/Contract.antt =====
-- The handlers that platforms/axplat-arm-peripherals/src/gic.rs keeps, and the IRQs it enables.
use axplat_crates.Prelude.{
  ℕ, ◌<◌, ◌≡◌, refl, Bool, true, false, ◌&&◌, none, some, [], ◌∷◌, ◌++◌, arith, ltb, ◌==◌,
  if◌then◌else◌, Exec, returns, as_u32, Bool-cases, inl, inr, append-nil,
}
use axplat_crates.Irq.{HandlerTable, is_none}
use axplat_crates.Irq.Contract.{KeepsHandlers}
use axplat_crates.Arm.Gic.{
  max_irq_count, Ack, set_irq_enable, GicState, set_enable, register_handler, unregister_handler,
  irq_if,
}

module _ {Handler : Type 0} (handlers : HandlerTable Handler max_irq_count) where
  open handlers use {lookup, register_result, lookup-register, unregister_result, lookup-unregister}

  -- After `init_gic`, the IRQs of the table.
  abbrev pub IsTableIrq : ℕ → GicState handlers → Type 0
  IsTableIrq irq s = (s.gic ≡ true) × (irq < max_irq_count)

  -- What the calls do, whatever the IRQ is.
  pub register_handler_run :
      (irq : ℕ) (h : Handler) (s : GicState handlers)
      → s.gic ≡ true
      → register_handler handlers irq h s ≡ (
          let (done, t) = handlers.register_handler irq h s.table in
          returns (
            done,
            record s {
              table = t;
              log = s.log ++ (if done then set_irq_enable (as_u32 irq) true ∷ [] else []);
            },
          ))
  unfolding register_handler set_enable
  register_handler_run irq h s ready =
      elim (Bool-cases (handlers.register_handler irq h s.table).0) [
        | inl e ↦ rw (e, ready)
        | inr e ↦ rw (e, append-nil)
      ]

  pub unregister_handler_run :
      (irq : ℕ) (s : GicState handlers)
      → s.gic ≡ true
      → unregister_handler handlers irq s ≡ (
          let (old, t) = handlers.unregister_handler irq s.table in
          returns
            (old, record s { table = t; log = s.log ++ set_irq_enable (as_u32 irq) false ∷ [] }))
  unfolding unregister_handler set_enable
  unregister_handler_run irq s ready = rw ready

  -- After `init_gic`, `register_handler` succeeds exactly for an IRQ below 1024 that has no handler,
  -- and enables the IRQ then and only then; `unregister_handler` gives back the handler and disables
  -- the IRQ whether there was one or not.
  pub registration_enables :
      (irq : ℕ) (h : Handler) (s : GicState handlers)
      → s.gic ≡ true
      → (t t' : GicState handlers) × (register_handler handlers irq h s
          ≡ returns (ltb irq max_irq_count && is_none (lookup irq s.table), t))
        × (t.log
            ≡ s.log
              ++ (if ltb irq max_irq_count && is_none (lookup irq s.table)
                  then set_irq_enable (as_u32 irq) true ∷ []
                  else []))
        × (unregister_handler handlers irq s ≡ returns (lookup irq s.table, t'))
        × (t'.log ≡ s.log ++ set_irq_enable (as_u32 irq) false ∷ [])
  registration_enables irq h s ready = (
    record s {
      table = (handlers.register_handler irq h s.table).1;
      log =
          s.log
          ++ (if ltb irq max_irq_count && is_none (lookup irq s.table)
              then set_irq_enable (as_u32 irq) true ∷ []
              else []);
    },
    record s {
      table = (handlers.unregister_handler irq s.table).1;
      log = s.log ++ set_irq_enable (as_u32 irq) false ∷ [];
    },
    rw (register_handler_run irq h s ready, register_result irq h s.table),
    refl,
    rw (unregister_handler_run irq s ready, unregister_result irq s.table),
    refl,
  )

  register_new :
      (irq : ℕ) (h : Handler) (s : GicState handlers)
      → IsTableIrq irq s
      → lookup irq s.table ≡ none
      → (s' : GicState handlers) × (register_handler handlers irq h s ≡ returns (true, s'))
        × ((j : ℕ) → lookup j s'.table ≡ (if irq == j then some h else lookup j s.table))
  register_new irq h s (ready, l) free = (
    record s {
      table = (handlers.register_handler irq h s.table).1;
      log = s.log ++ set_irq_enable (as_u32 irq) true ∷ [];
    },
    (let e : (handlers.register_handler irq h s.table).0 ≡ true =
          ground (arith, register_result irq h s.table) in
        rw (register_handler_run irq h s ready, e)),
    λ j. ground (arith, lookup-register irq j h s.table),
  )

  register_taken :
      (irq : ℕ) (h old : Handler) (s : GicState handlers)
      → IsTableIrq irq s
      → lookup irq s.table ≡ some old
      → (s' : GicState handlers) × (register_handler handlers irq h s ≡ returns (false, s'))
        × ((j : ℕ) → lookup j s'.table ≡ lookup j s.table)
  register_taken irq h old s (ready, l) taken = (
    record s { table = (handlers.register_handler irq h s.table).1; log = s.log ++ [] },
    (let e : (handlers.register_handler irq h s.table).0 ≡ false =
          ground (arith, register_result irq h s.table) in
        rw (register_handler_run irq h s ready, e)),
    λ j. ground (arith, lookup-register irq j h s.table),
  )

  unregister_lem :
      (irq : ℕ) (s : GicState handlers)
      → IsTableIrq irq s
      → (s' : GicState handlers) × (unregister_handler handlers irq s
          ≡ returns (lookup irq s.table, s'))
        × ((j : ℕ) → lookup j s'.table ≡ (if irq == j then none else lookup j s.table))
  unregister_lem irq s (ready, l) = (
    record s {
      table = (handlers.unregister_handler irq s.table).1;
      log = s.log ++ set_irq_enable (as_u32 irq) false ∷ [];
    },
    rw (unregister_handler_run irq s ready, unregister_result irq s.table),
    λ j. lookup-unregister irq j s.table,
  )

  -- After `init_gic`, for the IRQs below 1024, `register_handler` and `unregister_handler` keep a
  -- map of handlers: a free IRQ takes the handler, a taken one refuses and keeps its own,
  -- `unregister_handler` returns and removes it, and no call touches another IRQ.
  pub gic_if-KeepsHandlers :
      (int_id_sgi : ℕ → Exec ℕ) (is_special : Ack → Bool) (eoi_mode_ns : Bool) (ack : Ack)
      → KeepsHandlers
          (irq_if handlers int_id_sgi is_special eoi_mode_ns ack)
          IsTableIrq
          (λ irq s. lookup irq s.table)
  gic_if-KeepsHandlers int_id_sgi is_special eoi_mode_ns ack = record {
    register_new = register_new;
    register_taken = register_taken;
    unregister_lem = unregister_lem;
  }
