-- ===== src/Arm/Init/Order.antt =====
-- The order of the calls in the init.rs of the ARM platforms meets what the drivers ask.
use axplat_crates.Prelude.{
  ℕ, ◌≡◌, refl, ap, ◌∙◌, Bool, true, false, Option, none, some, [], ◌∷◌, ◌++◌, if◌then◌else◌,
  returns, panics, ◌>>=◌, as_u32, add64, add32,
}
use axplat_crates.Irq.{HandlerTable}
use axplat_crates.Time.{nanos_per_sec}
use axplat_crates.Time.Ratio.{RatioIf}
use axplat_crates.Arm.Gic.{
  Ack, GicState, set_enable, handle_irq, max_irq_count, emit, gic_init, init_current_cpu,
  set_eoi_mode_ns, set_irq_enable,
}
use axplat_crates.Arm.Gic.Start.{
  init_gic_run, init_gic_again, init_gicc_run, init_gicc_early, set_enable_run,
}
use axplat_crates.Arm.Gic.Handle.{handle_irq_lem}
use axplat_crates.Arm.Gic.Contract.{register_handler_run}
use axplat_crates.Arm.Psci.Calls.{init-hvc, init-smc}
use axplat_crates.Arm.Timer.{TimerState, init_rtc, enable_irqs}
use axplat_crates.Arm.Timer.Laws.{init_early_run, ratio-init_rtc, ratio-enable_irqs}
use axplat_crates.Arm.Init.{
  ArmPlatform, aarch64_qemu_virt, aarch64_raspi, aarch64_bsta1000b, aarch64_phytium_pi,
  arm_qemu_virt, timer_irq, ArmState, init_early, enable_timer_irqs, init_later,
  init_later_secondary, uart_irq, register_uart, set_ier,
}

module _ {Handler : Type 0} (handlers : HandlerTable Handler max_irq_count) (ratios : RatioIf) where
  -- What `init_early` leaves to `init_later`: the interrupt controller as it was, and a timer that
  -- knows its rate.
  record Early (ratio : ratios.Ratio) (s t : ArmState handlers ratios) : Type 0 where
    gic_kept : t.gic ≡ s.gic
    rate : t.timer.cntpct_to_nanos_ratio ≡ ratio

  abbrev rated : ratios.Ratio → TimerState ratios → TimerState ratios
  rated ratio t = record t {
    cntpct_to_nanos_ratio = ratio;
    nanos_to_cntpct_ratio = ratios.inverse ratio;
  }

  init_early_returns :
      (p : ArmPlatform) (freq timestamp ticks : ℕ) (ratio : ratios.Ratio)
      (s : ArmState handlers ratios)
      → s.uart ≡ false
      → ratios.new nanos_per_sec freq ≡ returns ratio
      → (t : ArmState handlers ratios) × (init_early handlers ratios p freq timestamp ticks s
          ≡ returns t)
        × Early ratio s t
  unfolding init_early
  init_early_returns aarch64_qemu_virt freq timestamp ticks ratio s u e =
      let t : TimerState ratios =
        init_rtc ratios (add64 0x901_0000 0xffff_0000_0000_0000) timestamp ticks
          (rated ratio s.timer) in
      (
        record s { uart = true; psci_method_hvc = true; timer = t },
        rw (u, init-hvc, init_early_run ratios freq ratio s.timer e),
        record {
          gic_kept = refl;
          rate =
              ratio-init_rtc ratios (add64 0x901_0000 0xffff_0000_0000_0000) timestamp ticks
                (rated ratio s.timer);
        },
      )
  init_early_returns aarch64_raspi freq timestamp ticks ratio s u e = (
    record s { uart = true; timer = rated ratio s.timer },
    rw (u, init_early_run ratios freq ratio s.timer e),
    record { gic_kept = refl; rate = refl },
  )
  init_early_returns aarch64_bsta1000b freq timestamp ticks ratio s u e = (
    record s { dw_uart = true; psci_method_hvc = false; timer = rated ratio s.timer },
    rw (init-smc, init_early_run ratios freq ratio s.timer e),
    record { gic_kept = refl; rate = refl },
  )
  init_early_returns aarch64_phytium_pi freq timestamp ticks ratio s u e = (
    record s { uart = true; psci_method_hvc = false; timer = rated ratio s.timer },
    rw (u, init-smc, init_early_run ratios freq ratio s.timer e),
    record { gic_kept = refl; rate = refl },
  )
  init_early_returns arm_qemu_virt freq timestamp ticks ratio s u e =
      let t : TimerState ratios =
        init_rtc ratios (add32 0x901_0000 0x8000_0000) timestamp ticks (rated ratio s.timer) in
      (
        record s { uart = true; psci_method_hvc = true; timer = t },
        rw (u, init-hvc, init_early_run ratios freq ratio s.timer e),
        record {
          gic_kept = refl;
          rate =
              ratio-init_rtc ratios (add32 0x901_0000 0x8000_0000) timestamp ticks
                (rated ratio s.timer);
        },
      )

  -- The interrupt controller is ready, and the timer has its rate.
  record Ready (ratio : ratios.Ratio) (t : ArmState handlers ratios) : Type 0 where
    gic_ready : t.gic.gic ≡ true
    trap_ready : t.gic.trap_op ≡ true
    rate : t.timer.cntpct_to_nanos_ratio ≡ ratio

  register_uart_returns :
      (o : Option ℕ) (handler : Handler) (ratio : ratios.Ratio) (s : ArmState handlers ratios)
      → Ready ratio s
      → (t : ArmState handlers ratios) × (register_uart handlers ratios o handler s ≡ returns t)
        × Ready ratio t
  register_uart_returns none handler ratio s r = (s, refl, r)
  register_uart_returns (some irq) handler ratio s r =
      let (done, table) = handlers.register_handler irq handler s.gic.table in
      (
        record s {
          gic = record s.gic {
            table = table;
            log = s.gic.log ++ (if done then set_irq_enable (as_u32 irq) true ∷ [] else []);
          };
        },
        rw (register_handler_run handlers irq handler s.gic r.gic_ready),
        record { gic_ready = r.gic_ready; trap_ready = r.trap_ready; rate = r.rate },
      )

  enable_timer_irqs_returns :
      (ratio : ratios.Ratio) (s : ArmState handlers ratios)
      → Ready ratio s
      → (t : ArmState handlers ratios) × (enable_timer_irqs handlers ratios s ≡ returns t)
        × Ready ratio t
  enable_timer_irqs_returns ratio s r = (
    record s {
      gic = emit handlers (set_irq_enable (as_u32 timer_irq) true) s.gic;
      timer = enable_irqs ratios timer_irq s.timer;
    },
    rw (set_enable_run handlers timer_irq true s.gic r.gic_ready),
    record {
      gic_ready = r.gic_ready;
      trap_ready = r.trap_ready;
      rate = ratio-enable_irqs ratios timer_irq s.timer ∙ r.rate;
    },
  )

  init_later_secondary_returns :
      (ratio : ratios.Ratio) (s : ArmState handlers ratios)
      → Ready ratio s
      → (t : ArmState handlers ratios) × (init_later_secondary handlers ratios s ≡ returns t)
        × Ready ratio t
  unfolding init_later_secondary
  init_later_secondary_returns ratio s r =
      let g : GicState handlers =
        emit handlers (set_eoi_mode_ns false) (emit handlers init_current_cpu s.gic) in
      let (t, run, ready) =
        enable_timer_irqs_returns ratio (record s { gic = g })
          (record { gic_ready = r.gic_ready; trap_ready = r.trap_ready; rate = r.rate }) in
      (t, rw (init_gicc_run handlers s.gic r.gic_ready) run, ready)

  Ready-set_ier :
      (p : ArmPlatform) (ratio : ratios.Ratio) (s : ArmState handlers ratios)
      → Ready ratio s
      → Ready ratio (set_ier handlers ratios p s)
  Ready-set_ier aarch64_bsta1000b ratio s r = record {
    gic_ready = r.gic_ready;
    trap_ready = r.trap_ready;
    rate = r.rate;
  }
  Ready-set_ier aarch64_qemu_virt ratio s r = r
  Ready-set_ier aarch64_raspi ratio s r = r
  Ready-set_ier aarch64_phytium_pi ratio s r = r
  Ready-set_ier arm_qemu_virt ratio s r = r

  init_later_returns :
      (p : ArmPlatform) (handler : Handler) (ratio : ratios.Ratio) (s : ArmState handlers ratios)
      → s.gic.gic ≡ false
      → s.gic.trap_op ≡ false
      → s.timer.cntpct_to_nanos_ratio ≡ ratio
      → (t : ArmState handlers ratios) × (init_later handlers ratios p handler s ≡ returns t)
        × Ready ratio t
  unfolding init_later
  init_later_returns p handler ratio s off off' rate =
      let g : GicState handlers = record s.gic {
        gic = true;
        trap_op = true;
        log = s.gic.log ++ gic_init ∷ [];
      } in
      let g' : GicState handlers =
        emit handlers (set_eoi_mode_ns false) (emit handlers init_current_cpu g) in
      let (t, run, ready) =
        enable_timer_irqs_returns ratio (record s { gic = g' })
          (record { gic_ready = refl; trap_ready = refl; rate = rate }) in
      let (u, run', ready') =
        register_uart_returns (uart_irq p) handler ratio (set_ier handlers ratios p t)
          (Ready-set_ier p ratio t ready) in
      (
        u,
        rw (init_gic_run handlers s.gic off off', init_gicc_run handlers g refl)
            (ap
                (λ e. e >>= λ x.
                  register_uart handlers ratios (uart_irq p) handler (set_ier handlers ratios p x))
                run
              ∙ run'),
        ready',
      )

  -- On each ARM platform, from a state where neither the UART nor the interrupt controller is set up
  -- and with a frequency that gives a ratio, `init_early` and then `init_later` of the first CPU
  -- return, with the clock at this ratio and with both variables of the interrupt controller set, so
  -- that every IRQ can be enabled or disabled and every interrupt is handled without a panic.
  -- `init_later_secondary` of another CPU returns after them and panics before them; a second
  -- `init_later` panics.
  pub init_early-init_later :
      (p : ArmPlatform) (freq timestamp ticks : ℕ) (ratio : ratios.Ratio) (handler : Handler)
      (s : ArmState handlers ratios)
      → s.uart ≡ false
      → s.gic.gic ≡ false
      → s.gic.trap_op ≡ false
      → ratios.new nanos_per_sec freq ≡ returns ratio
      → (t u : ArmState handlers ratios) × ((init_early handlers ratios p freq timestamp ticks s
            >>= init_later handlers ratios p handler)
          ≡ returns t)
        × (t.gic.gic ≡ true)
        × (t.gic.trap_op ≡ true)
        × ((irq : ℕ) (enabled : Bool)
            → (g : GicState handlers) × (set_enable handlers irq enabled t.gic ≡ returns g))
        × ((is_special : Ack → Bool) (eoi_mode_ns : Bool) (ack : Ack)
            → (g : GicState handlers) × (handle_irq handlers is_special eoi_mode_ns ack t.gic
                ≡ returns g))
        × (t.timer.cntpct_to_nanos_ratio ≡ ratio)
        × (init_later_secondary handlers ratios t ≡ returns u)
        × (init_later_secondary handlers ratios s ≡ panics)
        × (init_later handlers ratios p handler t ≡ panics)
  unfolding init_later init_later_secondary
  init_early-init_later p freq timestamp ticks ratio handler s uart off off' rate =
      let (e, early, kept) = init_early_returns p freq timestamp ticks ratio s uart rate in
      let (t, later, ready) =
        init_later_returns p handler ratio e (ap (λ g. g.gic) kept.gic_kept ∙ off)
          (ap (λ g. g.trap_op) kept.gic_kept ∙ off') kept.rate in
      let (u, second, _) = init_later_secondary_returns ratio t ready in
      (
        t,
        u,
        ap (λ x. x >>= init_later handlers ratios p handler) early ∙ later,
        ready.gic_ready,
        ready.trap_ready,
        (λ irq enabled. (_, set_enable_run handlers irq enabled t.gic ready.gic_ready)),
        (λ is_special mode ack.
            (_, handle_irq_lem handlers is_special mode ack t.gic ready.trap_ready)),
        ready.rate,
        second,
        rw (init_gicc_early handlers s.gic off),
        rw (init_gic_again handlers t.gic ready.gic_ready),
      )
