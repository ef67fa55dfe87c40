-- ===== src/Platform/Memory/Tests.antt =====
-- The theorems on the memory of the platforms at concrete addresses.
use axplat_crates.Prelude.{◌≡◌, [], ◌∷◌, arith}
use axplat_crates.Platform.Memory.{arm_qemu_virt, x86_pc, mem_if}
use axplat_crates.Platform.Memory.Linear.{phys_to_virt-virt_to_phys}
use axplat_crates.Platform.Memory.Layout.{ranges-linear}

-- An address past 0x8000_0000 wraps around on the 32-bit platform.
phys_to_virt-virt_to_phys_example :
    let m = mem_if [] arm_qemu_virt in
    (m.virt_to_phys (m.phys_to_virt 0x9000_0000) ≡ 0x9000_0000)
    × (m.phys_to_virt (m.virt_to_phys 0x9000_0000) ≡ 0x9000_0000)
phys_to_virt-virt_to_phys_example =
    phys_to_virt-virt_to_phys arm_qemu_virt [] 0x9000_0000 (omega arith)

-- In the RAM that the boot loader of x86-pc tells.
ranges-linear_example :
    let m = mem_if ((0x10_0000, 0x7f0_0000) ∷ []) x86_pc in
    (m.phys_to_virt 0x20_0000 ≡ 0xffff_8000_0020_0000)
    × (m.virt_to_phys 0xffff_8000_0020_0000 ≡ 0x20_0000)
ranges-linear_example =
    ranges-linear ((0x10_0000, 0x7f0_0000) ∷ []) x86_pc 0x20_0000 (omega arith, tt) (omega arith)
