-- ===== src/Platform/Power.antt =====
-- The power calls of the platforms, platforms/*/src/power.rs, and the start of another CPU in
-- platforms/axplat-loongarch64-qemu-virt/src/mp.rs. The calls of the SBI and of the drivers and the
-- writes to ports and registers are recorded in order. Where a system does not go off, the code halts
-- the CPU again and again: `halts`, the last event.
pub mod Laws
mod Tests
use axplat_crates.Prelude.{
  ℕ, zero, suc, ◌+◌, Bool, true, false, Option, none, some, List, [], ◌∷◌, ◌++◌, if◌then◌else◌,
  Exec,
}
use axplat_crates.Console.{Uart}
use axplat_crates.Arm.Psci
use axplat_crates.Arm.Psci.{Firmware}

pub data Event : Type 0 where
  hart_start : (hartid start_addr opaque : ℕ) → Event
  system_reset_shutdown : Event
  csr_mail_send : (entry cpu_id mailbox : ℕ) → Event
  send_ipi_single : (cpu_id action : ℕ) → Event
  mmio_write : (vaddr value : ℕ) → Event
  port_write : (port value : ℕ) → Event
  halt : Event
  halts : Event

-- `start_secondary` is the address of `_start_secondary` that the code sees.
module _ (virt_to_phys phys_to_virt : ℕ → ℕ) (start_secondary : ℕ) where
  -- riscv64-qemu-virt: `hsm_available` tells whether the SBI has the HSM extension.
  pub riscv_cpu_boot : (hsm_available : Bool) (cpu_id stack_top_paddr : ℕ) → List Event
  riscv_cpu_boot hsm_available cpu_id stack_top_paddr =
      if hsm_available
      then hart_start cpu_id (virt_to_phys start_secondary) stack_top_paddr ∷ []
      else []

  abbrev pub action_boot_cpu : ℕ
  action_boot_cpu = 1

  -- loongarch64-qemu-virt: the value of `SMP_BOOT_STACK_TOP`, and the calls after it is set.
  pub loongarch_start_secondary_cpu : (cpu_id stack_top : ℕ) → ℕ × List Event
  loongarch_start_secondary_cpu cpu_id stack_top = (
    phys_to_virt stack_top,
    csr_mail_send start_secondary cpu_id 0 ∷ send_ipi_single cpu_id action_boot_cpu ∷ [],
  )

  -- aarch64-qemu-virt and arm-qemu-virt: `wide` tells whether the processor has 64 bits.
  module _ (firmware : Firmware) (psci_method_hvc wide : Bool) where
    open firmware use {World}

    pub qemu_cpu_boot : (cpu_id stack_top_paddr : ℕ) → World → Exec World
    qemu_cpu_boot cpu_id stack_top_paddr w =
        Psci.cpu_on firmware psci_method_hvc wide cpu_id (virt_to_phys start_secondary)
          stack_top_paddr w

abbrev pub riscv_system_off : List Event
riscv_system_off = system_reset_shutdown ∷ halts ∷ []

abbrev pub raspi_system_off : List Event
raspi_system_off = halts ∷ []

-- `ged_vaddr` is the address of the register in the linear map.
abbrev pub loongarch_system_off : (ged_vaddr : ℕ) → List Event
loongarch_system_off ged_vaddr = mmio_write ged_vaddr 0x34 ∷ halt ∷ halts ∷ []

-- x86-pc: with the feature `reboot-on-system-off` it waits for a key, for at most `fuel` polls of the
-- console, and `none` stands for a CPU that still waits.
module _ (uart : Uart) where
  open uart use {World, getchar}

  pub wait_for_key : ℕ → World → Option World
  wait_for_key zero w = none
  wait_for_key (suc fuel) w = elim (getchar w).0 [
    | none ↦ wait_for_key fuel (getchar w).1
    | some c ↦ some (getchar w).1
  ]

  pub x86_system_off :
      (reboot_on_system_off : Bool) (fuel : ℕ) → World → Option (World × List Event)
  unfolding wait_for_key
  x86_system_off true fuel w = elim (wait_for_key fuel w) [
    | none ↦ none
    | some w' ↦ some (w', port_write 0x64 0xfe ∷ halt ∷ halts ∷ [])
  ]
  x86_system_off false fuel w = some (w, port_write 0x604 0x2000 ∷ halt ∷ halts ∷ [])
