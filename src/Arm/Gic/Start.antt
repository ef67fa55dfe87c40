-- ===== src/Arm/Gic/Start.antt =====
-- The order in which platforms/axplat-arm-peripherals/src/gic.rs must be initialised.
use axplat_crates.Prelude.{
  ℕ, ◌≡◌, refl, ap, if◌then◌else◌, Bool, true, false, ◌++◌, [], ◌∷◌, panics, returns, ◌>>=◌, as_u32,
  append_assoc,
}
use axplat_crates.Irq.{HandlerTable}
use axplat_crates.Arm.Gic.{
  emit, set_irq_enable, max_irq_count, GicState, gic_init, init_current_cpu, set_eoi_mode_ns,
  set_enable, init_gic, init_gicc,
}

module _ {Handler : Type 0} (handlers : HandlerTable Handler max_irq_count) where
  -- The calls one by one.
  pub init_gic_run :
      (s : GicState handlers)
      → s.gic ≡ false
      → s.trap_op ≡ false
      → init_gic handlers s
        ≡ returns (record s { gic = true; trap_op = true; log = s.log ++ gic_init ∷ [] })
  unfolding init_gic
  init_gic_run s g o = rw (g, o)

  pub init_gic_again : (s : GicState handlers) → s.gic ≡ true → init_gic handlers s ≡ panics
  unfolding init_gic
  init_gic_again s g = rw g

  pub init_gicc_run :
      (s : GicState handlers)
      → s.gic ≡ true
      → init_gicc handlers s
        ≡ returns (emit handlers (set_eoi_mode_ns false) (emit handlers init_current_cpu s))
  unfolding init_gicc
  init_gicc_run s g =
      ap
        (λ b. (if b then returns s else panics) >>= λ s'.
          returns (emit handlers (set_eoi_mode_ns false) (emit handlers init_current_cpu s')))
        g

  pub init_gicc_early : (s : GicState handlers) → s.gic ≡ false → init_gicc handlers s ≡ panics
  unfolding init_gicc
  init_gicc_early s g = rw g

  pub set_enable_run :
      (irq : ℕ) (enabled : Bool) (s : GicState handlers)
      → s.gic ≡ true
      → set_enable handlers irq enabled s
        ≡ returns (emit handlers (set_irq_enable (as_u32 irq) enabled) s)
  unfolding set_enable
  set_enable_run irq enabled s g =
      ap
        (λ b. (if b then returns s else panics) >>= λ s'.
          returns (emit handlers (set_irq_enable (as_u32 irq) enabled) s'))
        g

  -- From a state where nothing is initialised, `init_gic` and then `init_gicc` succeed, and after
  -- them every interrupt can be enabled; a second `init_gic` panics.
  init_gic-init_gicc :
      (irq : ℕ) (enabled : Bool) (s : GicState handlers)
      → s.gic ≡ false
      → s.trap_op ≡ false
      → (t u : GicState handlers) × ((init_gic handlers s >>= init_gicc handlers) ≡ returns t)
        × (t.log ≡ s.log ++ gic_init ∷ init_current_cpu ∷ set_eoi_mode_ns false ∷ [])
        × (set_enable handlers irq enabled t ≡ returns u)
        × (init_gic handlers t ≡ panics)
  unfolding init_gic init_gicc set_enable
  init_gic-init_gicc irq enabled s g o =
      let t : GicState handlers = record s {
        gic = true;
        trap_op = true;
        log = s.log ++ gic_init ∷ init_current_cpu ∷ set_eoi_mode_ns false ∷ [];
      } in
      (
        t,
        emit handlers (set_irq_enable (as_u32 irq) enabled) t,
        rw (g, o, append_assoc, append_assoc),
        refl,
        refl,
        refl,
      )
