-- ===== src/Arm/Init/Tests.antt =====
-- The initialisation of platforms/axplat-aarch64-qemu-virt with a counter at 62.5 MHz.
use axplat_crates.Prelude.{
  ℕ, ◌*◌, ◌/◌, ◌≡◌, refl, Bool, true, false, none, [], ◌==◌, if◌then◌else◌, arith, returns, panics,
  ◌>>=◌,
}
use axplat_crates.Irq.{HandlerTable}
use axplat_crates.Irq.Table.{function_table}
use axplat_crates.Time.Ratio.{RatioIf}
use axplat_crates.Arm.Gic.{max_irq_count, Ack, GicState, set_enable, handle_irq}
use axplat_crates.Arm.Init.{
  aarch64_qemu_virt, ArmState, init_early, init_later, init_later_secondary,
}
use axplat_crates.Arm.Init.Order.{init_early-init_later}

abbrev handlers : HandlerTable ℕ max_irq_count
handlers = function_table ℕ max_irq_count

abbrev pairs : RatioIf
pairs = record {
  Ratio = ℕ × ℕ;
  zero_ratio = (0, 1);
  new = λ n d. if d == 0 then panics else returns (n, d);
  inverse = λ r. (r.1, r.0);
  mul_trunc = λ r v. v * r.0 / r.1;
  mul_trunc-zero_ratio = λ v. omega arith;
}

abbrev off : ArmState handlers pairs
off = record {
  uart = false;
  dw_uart = false;
  dw_uart_ier = false;
  psci_method_hvc = false;
  gic = record { gic = false; trap_op = false; table = λ i. none; log = [] };
  timer = record {
    cntpct_to_nanos_ratio = (0, 1);
    nanos_to_cntpct_ratio = (0, 1);
    rtc_epochoffset_nanos = 0;
    log = [];
  };
}

init_early-init_later_example :
    (t u : ArmState handlers pairs) × ((init_early handlers pairs aarch64_qemu_virt 62_500_000
          1_700_000_000 40 off
        >>= init_later handlers pairs aarch64_qemu_virt 7)
      ≡ returns t)
    × (t.gic.gic ≡ true)
    × (t.gic.trap_op ≡ true)
    × ((irq : ℕ) (enabled : Bool)
        → (g : GicState handlers) × (set_enable handlers irq enabled t.gic ≡ returns g))
    × ((is_special : Ack → Bool) (eoi_mode_ns : Bool) (ack : Ack)
        → (g : GicState handlers) × (handle_irq handlers is_special eoi_mode_ns ack t.gic
            ≡ returns g))
    × (t.timer.cntpct_to_nanos_ratio ≡ (1_000_000_000, 62_500_000))
    × (init_later_secondary handlers pairs t ≡ returns u)
    × (init_later_secondary handlers pairs off ≡ panics)
    × (init_later handlers pairs aarch64_qemu_virt 7 t ≡ panics)
init_early-init_later_example =
    init_early-init_later handlers pairs aarch64_qemu_virt 62_500_000 1_700_000_000 40
      (1_000_000_000, 62_500_000) 7 off refl refl refl refl
