-- ===== src/X86/Irq/Contract.antt =====
-- The handlers that platforms/axplat-x86-pc/src/apic.rs keeps.
use axplat_crates.Prelude.{
  ℕ, ◌<◌, ◌≡◌, refl, Bool, true, false, ◌&&◌, none, some, List, [], ◌∷◌, ◌++◌, arith, ltb, ◌==◌,
  if◌then◌else◌, returns, as_u8, Bool-cases, inl, inr, append-nil,
}
use axplat_crates.Irq.{HandlerTable, is_none}
use axplat_crates.Irq.Contract.{KeepsHandlers}
use axplat_crates.X86.Irq.{
  max_irq_count, apic_timer_vector, Event, enable_irq, disable_irq, ApicState, set_enable, register,
  unregister, irq_if,
}

module _ {Handler : Type 0} (handlers : HandlerTable Handler max_irq_count) where
  open handlers use {lookup, register_result, lookup-register, unregister_result, lookup-unregister}

  -- What enabling and disabling does to the IO APIC: nothing for the vectors of the local APIC.
  abbrev pub io_apic_calls : ℕ → Bool → List (Event Handler)
  io_apic_calls vector enabled =
      if ltb vector apic_timer_vector
      then (if enabled then enable_irq (as_u8 vector) else disable_irq (as_u8 vector)) ∷ []
      else []

  set_enable_run :
      (vector : ℕ) (enabled : Bool) (s : ApicState handlers)
      → s.io_apic ≡ true
      → set_enable handlers vector enabled s
        ≡ returns (record s { log = s.log ++ io_apic_calls vector enabled })
  unfolding set_enable
  set_enable_run vector true s ready = elim (Bool-cases (ltb vector apic_timer_vector)) [
    | inl e ↦ rw (e, ready)
    | inr e ↦ rw (e, append-nil)
  ]
  set_enable_run vector false s ready = elim (Bool-cases (ltb vector apic_timer_vector)) [
    | inl e ↦ rw (e, ready)
    | inr e ↦ rw (e, append-nil)
  ]

  pub register_run :
      (vector : ℕ) (h : Handler) (s : ApicState handlers)
      → s.io_apic ≡ true
      → register handlers vector h s ≡ (
          let (done, t) = handlers.register_handler vector h s.table in
          returns (
            done,
            record s { table = t; log = s.log ++ (if done then io_apic_calls vector true else []) },
          ))
  unfolding register
  register_run vector h s ready = elim (Bool-cases (handlers.register_handler vector h s.table).0) [
    | inl e ↦ rw (
      e,
      set_enable_run vector true
          (record s { table = (handlers.register_handler vector h s.table).1 }) ready,
    )
    | inr e ↦ rw (e, append-nil)
  ]

  pub unregister_run :
      (vector : ℕ) (s : ApicState handlers)
      → s.io_apic ≡ true
      → unregister handlers vector s ≡ (
          let (old, t) = handlers.unregister_handler vector s.table in
          returns (old, record s { table = t; log = s.log ++ io_apic_calls vector false }))
  unfolding unregister
  unregister_run vector s ready = rw (set_enable_run vector false s ready)

  -- After `init_primary`, `register` succeeds exactly for a vector below 256 that has no handler,
  -- and enables the vector then and only then; `unregister` gives back the handler and disables the
  -- vector whether there was one or not. For the vectors of the local APIC, from 0xf0 on, neither
  -- calls the IO APIC.
  registration_masks :
      (vector : ℕ) (h : Handler) (s : ApicState handlers)
      → s.io_apic ≡ true
      → (t t' : ApicState handlers) × (register handlers vector h s
          ≡ returns (ltb vector max_irq_count && is_none (lookup vector s.table), t))
        × (t.log
            ≡ s.log
              ++ (if ltb vector max_irq_count && is_none (lookup vector s.table)
                  then io_apic_calls vector true
                  else []))
        × (unregister handlers vector s ≡ returns (lookup vector s.table, t'))
        × (t'.log ≡ s.log ++ io_apic_calls vector false)
  registration_masks vector h s ready = (
    record s {
      table = (handlers.register_handler vector h s.table).1;
      log =
          s.log
          ++ (if ltb vector max_irq_count && is_none (lookup vector s.table)
              then io_apic_calls vector true
              else []);
    },
    record s {
      table = (handlers.unregister_handler vector s.table).1;
      log = s.log ++ io_apic_calls vector false;
    },
    rw (register_run vector h s ready, register_result vector h s.table),
    refl,
    rw (unregister_run vector s ready, unregister_result vector s.table),
    refl,
  )

  -- After `init_primary`, the vectors of the table.
  abbrev pub IsVector : ℕ → ApicState handlers → Type 0
  IsVector vector s = (s.io_apic ≡ true) × (vector < max_irq_count)

  register_new :
      (irq : ℕ) (h : Handler) (s : ApicState handlers)
      → IsVector irq s
      → lookup irq s.table ≡ none
      → (s' : ApicState handlers) × (register handlers irq h s ≡ returns (true, s'))
        × ((j : ℕ) → lookup j s'.table ≡ (if irq == j then some h else lookup j s.table))
  register_new irq h s (ready, l) free = (
    record s {
      table = (handlers.register_handler irq h s.table).1;
      log = s.log ++ io_apic_calls irq true;
    },
    (let e : (handlers.register_handler irq h s.table).0 ≡ true =
          ground (arith, register_result irq h s.table) in
        rw (register_run irq h s ready, e)),
    λ j. ground (arith, lookup-register irq j h s.table),
  )

  register_taken :
      (irq : ℕ) (h old : Handler) (s : ApicState handlers)
      → IsVector irq s
      → lookup irq s.table ≡ some old
      → (s' : ApicState handlers) × (register handlers irq h s ≡ returns (false, s'))
        × ((j : ℕ) → lookup j s'.table ≡ lookup j s.table)
  register_taken irq h old s (ready, l) taken = (
    record s { table = (handlers.register_handler irq h s.table).1; log = s.log ++ [] },
    (let e : (handlers.register_handler irq h s.table).0 ≡ false =
          ground (arith, register_result irq h s.table) in
        rw (register_run irq h s ready, e)),
    λ j. ground (arith, lookup-register irq j h s.table),
  )

  unregister_lem :
      (irq : ℕ) (s : ApicState handlers)
      → IsVector irq s
      → (s' : ApicState handlers) × (unregister handlers irq s ≡ returns (lookup irq s.table, s'))
        × ((j : ℕ) → lookup j s'.table ≡ (if irq == j then none else lookup j s.table))
  unregister_lem irq s (ready, l) = (
    record s {
      table = (handlers.unregister_handler irq s.table).1;
      log = s.log ++ io_apic_calls irq false;
    },
    rw (unregister_run irq s ready, unregister_result irq s.table),
    λ j. lookup-unregister irq j s.table,
  )

  -- After `init_primary`, for the vectors below 256, `register` and `unregister` keep a map of
  -- handlers: a free vector takes the handler, a taken one refuses and keeps its own, `unregister`
  -- returns and removes it, and no call touches another vector.
  pub x86_if-KeepsHandlers : KeepsHandlers (irq_if handlers) IsVector (λ irq s. lookup irq s.table)
  x86_if-KeepsHandlers = record {
    register_new = register_new;
    register_taken = register_taken;
    unregister_lem = unregister_lem;
  }
