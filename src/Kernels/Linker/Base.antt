-- ===== src/Kernels/Linker/Base.antt =====
-- Where the linker scripts of examples/*/build.rs put the kernels.
use Prim.Native.String.{String}
use text.Mathlib.Text.{◌==◌ as str_eq}
use axplat_crates.Prelude.{ℕ, Option, none, some, [], Exec, returns, panics}
use axplat_crates.Platform.Memory.{
  Platform, aarch64_bsta1000b, aarch64_phytium_pi, aarch64_qemu_virt, aarch64_raspi, arm_qemu_virt,
  loongarch64_qemu_virt, riscv64_qemu_virt, x86_pc, mem_if, phys_to_virt,
}

-- `kernel-base-paddr` of the default configurations.
abbrev kernel_base_paddr : Platform → ℕ
kernel_base_paddr aarch64_bsta1000b = 0x81000000
kernel_base_paddr aarch64_phytium_pi = 0x9000_0000
kernel_base_paddr aarch64_qemu_virt = 0x4020_0000
kernel_base_paddr aarch64_raspi = 0x8_0000
kernel_base_paddr arm_qemu_virt = 0x4001_0000
kernel_base_paddr loongarch64_qemu_virt = 0x8000_0000
kernel_base_paddr riscv64_qemu_virt = 0x8020_0000
kernel_base_paddr x86_pc = 0x20_0000

-- The linear image of the physical address at which the platform's configuration has the kernel.
abbrev pub linked_at : Option Platform → Exec ℕ
linked_at none = panics
linked_at (some p) = returns ((mem_if [] p).phys_to_virt (kernel_base_paddr p))
