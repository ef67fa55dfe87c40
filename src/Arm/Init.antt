-- ===== src/Arm/Init.antt =====
-- The initialisation of the ARM platforms: platforms/axplat-aarch64-qemu-virt/src/init.rs,
-- platforms/axplat-aarch64-raspi/src/init.rs, platforms/axplat-aarch64-bsta1000b/src/init.rs,
-- platforms/axplat-aarch64-phytium-pi/src/init.rs and platforms/axplat-arm-qemu-virt/src/init.rs, with the
-- features `irq`, `smp` and `rtc`. The trap vectors and the registers of the PL011 are set up outside
-- the state that is modelled here.
pub mod Order
mod Tests
use axplat_crates.Prelude.{
  ℕ, ◌+◌, Bool, true, false, Option, none, some, List, if◌then◌else◌, Exec, returns, panics, ◌>>=◌,
  add64, add32,
}
use axplat_crates.Irq.{HandlerTable}
use axplat_crates.Time.Ratio.{RatioIf}
use axplat_crates.Arm.Gic
use axplat_crates.Arm.Psci
use axplat_crates.Arm.Psci.{smc_text, hvc_text}
use axplat_crates.Arm.Timer
use axplat_crates.Arm.Gic.{GicState, max_irq_count}
use axplat_crates.Arm.Timer.{TimerState}

pub data ArmPlatform : Type 0 where
  aarch64_qemu_virt : ArmPlatform
  aarch64_raspi : ArmPlatform
  aarch64_bsta1000b : ArmPlatform
  aarch64_phytium_pi : ArmPlatform
  arm_qemu_virt : ArmPlatform

-- `TIMER_IRQ` of the default configurations.
abbrev pub timer_irq : ℕ
timer_irq = 30

-- The IRQ of the UART, where the platform registers a handler for it.
abbrev pub uart_irq : ArmPlatform → Option ℕ
uart_irq aarch64_qemu_virt = some 33
uart_irq aarch64_raspi = some 0x99
uart_irq aarch64_bsta1000b = some 0xf5
uart_irq aarch64_phytium_pi = some 0x74
uart_irq arm_qemu_virt = none

module _ {Handler : Type 0} (handlers : HandlerTable Handler max_irq_count) (ratios : RatioIf) where
  -- Whether the PL011 is set up, which happens once, whether the UART of the bsta1000b is and whether
  -- its interrupts are enabled, and the state of the three drivers.
  pub record ArmState : Type 0 where
    pub uart : Bool
    pub dw_uart : Bool
    pub dw_uart_ier : Bool
    pub psci_method_hvc : Bool
    pub gic : GicState handlers
    pub timer : TimerState ratios

  abbrev pub init_uart : ArmState → Exec ArmState
  init_uart s = if s.uart then panics else returns (record s { uart = true })

  abbrev pub init_psci : List ℕ → ArmState → Exec ArmState
  init_psci method s = do hvc ← Psci.init method; returns (record s { psci_method_hvc = hvc })

  abbrev pub init_timer : (freq : ℕ) → ArmState → Exec ArmState
  init_timer freq s = do t ← Timer.init_early ratios freq s.timer; returns (record s { timer = t })

  abbrev pub init_pl031 : (rtc_base timestamp ticks : ℕ) → ArmState → Exec ArmState
  init_pl031 rtc_base timestamp ticks s =
      returns (record s { timer = Timer.init_rtc ratios rtc_base timestamp ticks s.timer })

  -- `freq` is the timer's frequency, `timestamp` and `ticks` are what the RTC and the counter read.
  abbrev pub qemu_init_early : (freq timestamp ticks : ℕ) → ArmState → Exec ArmState
  qemu_init_early freq timestamp ticks s = do
    s_1 ← init_uart s
    s_2 ← init_psci hvc_text s_1
    s_3 ← init_timer freq s_2
    init_pl031 (add64 0x901_0000 0xffff_0000_0000_0000) timestamp ticks s_3

  abbrev pub raspi_init_early : (freq : ℕ) → ArmState → Exec ArmState
  raspi_init_early freq s = do s_1 ← init_uart s; init_timer freq s_1

  abbrev pub bsta1000b_init_early : (freq : ℕ) → ArmState → Exec ArmState
  bsta1000b_init_early freq s = do
    s_1 ← init_psci smc_text s
    init_timer freq (record s_1 { dw_uart = true })

  abbrev pub phytium_init_early : (freq : ℕ) → ArmState → Exec ArmState
  phytium_init_early freq s = do
    s_1 ← init_uart s
    s_2 ← init_psci smc_text s_1
    init_timer freq s_2

  abbrev pub arm_init_early : (freq timestamp ticks : ℕ) → ArmState → Exec ArmState
  arm_init_early freq timestamp ticks s = do
    s_1 ← init_uart s
    s_2 ← init_psci hvc_text s_1
    s_3 ← init_timer freq s_2
    init_pl031 (add32 0x901_0000 0x8000_0000) timestamp ticks s_3

  pub init_early : ArmPlatform → (freq timestamp ticks : ℕ) → ArmState → Exec ArmState
  init_early aarch64_qemu_virt freq timestamp ticks s = qemu_init_early freq timestamp ticks s
  init_early aarch64_raspi freq timestamp ticks s = raspi_init_early freq s
  init_early aarch64_bsta1000b freq timestamp ticks s = bsta1000b_init_early freq s
  init_early aarch64_phytium_pi freq timestamp ticks s = phytium_init_early freq s
  init_early arm_qemu_virt freq timestamp ticks s = arm_init_early freq timestamp ticks s

  -- `generic_timer::enable_irqs`, with the call of the interrupt controller.
  abbrev pub enable_timer_irqs : ArmState → Exec ArmState
  enable_timer_irqs s = do
    g ← Gic.set_enable handlers timer_irq true s.gic
    returns (record s { gic = g; timer = Timer.enable_irqs ratios timer_irq s.timer })

  -- `init_later` of the secondary CPUs, the same on all five platforms.
  pub init_later_secondary : ArmState → Exec ArmState
  init_later_secondary s = do
    g ← Gic.init_gicc handlers s.gic
    enable_timer_irqs (record s { gic = g })

  abbrev pub register_uart : Option ℕ → Handler → ArmState → Exec ArmState
  register_uart none handler s = returns s
  register_uart (some irq) handler s = do
    (done, g) ← Gic.register_handler handlers irq handler s.gic
    returns (record s { gic = g })

  -- `UART.lock().set_ier(true)` of `dw_apb_uart::init_irq`.
  abbrev pub set_ier : ArmPlatform → ArmState → ArmState
  set_ier aarch64_bsta1000b s = record s { dw_uart_ier = true }
  set_ier _ s = s

  -- `handler` is the UART's.
  pub init_later : ArmPlatform → Handler → ArmState → Exec ArmState
  init_later p handler s = do
    g_1 ← Gic.init_gic handlers s.gic
    g_2 ← Gic.init_gicc handlers g_1
    s' ← enable_timer_irqs (record s { gic = g_2 })
    register_uart (uart_irq p) handler (set_ier p s')
