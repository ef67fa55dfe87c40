-- ===== src/Platform/Memory/Linear.antt =====
-- The linear map of each platform, from platforms/*/src/mem.rs, is one to one.
use axplat_crates.Prelude.{ℕ, ◌+◌, ◌<◌, ◌≡◌, List, arith}
use axplat_crates.Mem.{RawRange}
use axplat_crates.Platform.Memory.{
  phys_to_virt, virt_to_phys, Platform, aarch64_bsta1000b, aarch64_phytium_pi, aarch64_qemu_virt,
  aarch64_raspi, arm_qemu_virt, loongarch64_qemu_virt, riscv64_qemu_virt, x86_pc, word,
  phys_virt_offset, mem_if,
}

-- On every platform `virt_to_phys` and `phys_to_virt` undo each other, for all addresses of the
-- platform's width.
pub phys_to_virt-virt_to_phys :
    (p : Platform) (ram : List RawRange) (a : ℕ)
    → a < word p
    → let m = mem_if ram p in
      (m.virt_to_phys (m.phys_to_virt a) ≡ a) × (m.phys_to_virt (m.virt_to_phys a) ≡ a)
unfolding phys_to_virt virt_to_phys
phys_to_virt-virt_to_phys aarch64_bsta1000b ram a h = (omega arith, omega arith)
phys_to_virt-virt_to_phys aarch64_phytium_pi ram a h = (omega arith, omega arith)
phys_to_virt-virt_to_phys aarch64_qemu_virt ram a h = (omega arith, omega arith)
phys_to_virt-virt_to_phys aarch64_raspi ram a h = (omega arith, omega arith)
phys_to_virt-virt_to_phys arm_qemu_virt ram a h = (omega arith, omega arith)
phys_to_virt-virt_to_phys loongarch64_qemu_virt ram a h = (omega arith, omega arith)
phys_to_virt-virt_to_phys riscv64_qemu_virt ram a h = (omega arith, omega arith)
phys_to_virt-virt_to_phys x86_pc ram a h = (omega arith, omega arith)

-- Where the offset does not take an address past the platform's width, the map adds the offset.
pub phys_to_virt-linear :
    (p : Platform) (ram : List RawRange) (a : ℕ)
    → a + phys_virt_offset p < word p
    → (mem_if ram p).phys_to_virt a ≡ a + phys_virt_offset p
unfolding phys_to_virt
phys_to_virt-linear aarch64_bsta1000b ram a h = omega arith
phys_to_virt-linear aarch64_phytium_pi ram a h = omega arith
phys_to_virt-linear aarch64_qemu_virt ram a h = omega arith
phys_to_virt-linear aarch64_raspi ram a h = omega arith
phys_to_virt-linear arm_qemu_virt ram a h = omega arith
phys_to_virt-linear loongarch64_qemu_virt ram a h = omega arith
phys_to_virt-linear riscv64_qemu_virt ram a h = omega arith
phys_to_virt-linear x86_pc ram a h = omega arith
