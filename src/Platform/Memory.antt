-- ===== src/Platform/Memory.antt =====
-- The memory of the eight platforms: platforms/*/src/mem.rs at the default configuration of each, and the
-- linear map from physical to virtual addresses. An address wraps around at the platform's width, as
-- in a release build.
pub mod Layout
pub mod Linear
mod Tests
use axplat_crates.Prelude.{ℕ, ◌+◌, ◌-◌, ◌%◌, ◌^◌, List, [], ◌∷◌}
use axplat_crates.Mem.{RawRange, MemIf}

-- The width of an address, and `PHYS_VIRT_OFFSET`.
module _ (word offset : ℕ) where
  unfoldable pub phys_to_virt : ℕ → ℕ
  phys_to_virt paddr = (paddr + offset) % word

  pub virt_to_phys : ℕ → ℕ
  virt_to_phys vaddr = (vaddr + word - offset) % word

pub data Platform : Type 0 where
  aarch64_bsta1000b : Platform
  aarch64_phytium_pi : Platform
  aarch64_qemu_virt : Platform
  aarch64_raspi : Platform
  arm_qemu_virt : Platform
  loongarch64_qemu_virt : Platform
  riscv64_qemu_virt : Platform
  x86_pc : Platform

abbrev pub word : Platform → ℕ
word arm_qemu_virt = 2 ^ 32
word aarch64_bsta1000b = 2 ^ 64
word aarch64_phytium_pi = 2 ^ 64
word aarch64_qemu_virt = 2 ^ 64
word aarch64_raspi = 2 ^ 64
word loongarch64_qemu_virt = 2 ^ 64
word riscv64_qemu_virt = 2 ^ 64
word x86_pc = 2 ^ 64

abbrev pub phys_virt_offset : Platform → ℕ
phys_virt_offset aarch64_bsta1000b = 0xffff_0000_0000_0000
phys_virt_offset aarch64_phytium_pi = 0xffff_0000_0000_0000
phys_virt_offset aarch64_qemu_virt = 0xffff_0000_0000_0000
phys_virt_offset aarch64_raspi = 0xffff_0000_0000_0000
phys_virt_offset arm_qemu_virt = 0x8000_0000
phys_virt_offset loongarch64_qemu_virt = 0xffff_0000_0000_0000
phys_virt_offset riscv64_qemu_virt = 0xffff_ffc0_0000_0000
phys_virt_offset x86_pc = 0xffff_8000_0000_0000

abbrev pub aarch64_bsta1000b_mem : MemIf
aarch64_bsta1000b_mem = record {
  phys_ram_ranges = (0x8000_0000, 0x7000_0000) ∷ [];
  reserved_phys_ram_ranges = [];
  mmio_ranges =
      (0x20008000, 0x1000)
      ∷ (0x32000000, 0x8000)
      ∷ (0x32011000, 0x1000)
      ∷ (0x33002000, 0x1000)
      ∷ (0x70035000, 0x1000)
      ∷ (0x70038000, 0x1000)
      ∷ [];
  phys_to_virt = phys_to_virt (2 ^ 64) 0xffff_0000_0000_0000;
  virt_to_phys = virt_to_phys (2 ^ 64) 0xffff_0000_0000_0000;
}

abbrev pub aarch64_phytium_pi_mem : MemIf
aarch64_phytium_pi_mem = record {
  phys_ram_ranges = (0x8000_0000, 0x8000_0000) ∷ [];
  reserved_phys_ram_ranges = [];
  mmio_ranges =
      (0x2800c000, 0x1000)
      ∷ (0x2800d000, 0x1000)
      ∷ (0x2800e000, 0x1000)
      ∷ (0x2800f000, 0x1000)
      ∷ (0x30000000, 0x8000000)
      ∷ (0x40000000, 0x10000000)
      ∷ (0x58000000, 0x28000000)
      ∷ (0x28014000, 0x2000)
      ∷ (0x28016000, 0x2000)
      ∷ (0x28018000, 0x2000)
      ∷ (0x2801a000, 0x2000)
      ∷ (0x2801c000, 0x2000)
      ∷ (0x28034000, 0x1000)
      ∷ (0x28035000, 0x1000)
      ∷ (0x28036000, 0x1000)
      ∷ (0x28037000, 0x1000)
      ∷ (0x28038000, 0x1000)
      ∷ (0x28039000, 0x1000)
      ∷ [];
  phys_to_virt = phys_to_virt (2 ^ 64) 0xffff_0000_0000_0000;
  virt_to_phys = virt_to_phys (2 ^ 64) 0xffff_0000_0000_0000;
}

abbrev pub aarch64_qemu_virt_mem : MemIf
aarch64_qemu_virt_mem = record {
  phys_ram_ranges = (0x4000_0000, 0x800_0000) ∷ [];
  reserved_phys_ram_ranges = [];
  mmio_ranges =
      (0x9000000, 0x1000)
      ∷ (0x9100000, 0x1000)
      ∷ (0x8000000, 0x20000)
      ∷ (0xa000000, 0x4000)
      ∷ (0x10000000, 0x2eff0000)
      ∷ (0x4010000000, 0x10000000)
      ∷ [];
  phys_to_virt = phys_to_virt (2 ^ 64) 0xffff_0000_0000_0000;
  virt_to_phys = virt_to_phys (2 ^ 64) 0xffff_0000_0000_0000;
}

abbrev pub aarch64_raspi_mem : MemIf
aarch64_raspi_mem = record {
  phys_ram_ranges = (0x0, 0x8000_0000) ∷ [];
  reserved_phys_ram_ranges = (0x0, 0x1000) ∷ [];
  mmio_ranges = (0xfe201000, 0x1000) ∷ (0xfe340000, 0x1000) ∷ (0xff841000, 0x3000) ∷ [];
  phys_to_virt = phys_to_virt (2 ^ 64) 0xffff_0000_0000_0000;
  virt_to_phys = virt_to_phys (2 ^ 64) 0xffff_0000_0000_0000;
}

abbrev pub arm_qemu_virt_mem : MemIf
arm_qemu_virt_mem = record {
  phys_ram_ranges = (0x4000_0000, 0x800_0000) ∷ [];
  reserved_phys_ram_ranges = [];
  mmio_ranges =
      (0x9000000, 0x1000)
      ∷ (0x9010000, 0x1000)
      ∷ (0x8000000, 0x20000)
      ∷ (0xa000000, 0x4000)
      ∷ (0x3f000000, 0x1000000)
      ∷ (0x10000000, 0x2eff0000)
      ∷ [];
  phys_to_virt = phys_to_virt (2 ^ 32) 0x8000_0000;
  virt_to_phys = virt_to_phys (2 ^ 32) 0x8000_0000;
}

abbrev pub loongarch64_qemu_virt_mem : MemIf
loongarch64_qemu_virt_mem = record {
  phys_ram_ranges = (0x8000_0000, 0x800_0000) ∷ [];
  reserved_phys_ram_ranges = [];
  mmio_ranges =
      (0x100d0000, 0x1000)
      ∷ (0x100e0000, 0x1000)
      ∷ (0x1fe00000, 0x1000)
      ∷ (0x20000000, 0x10000000)
      ∷ (0x40000000, 0x20000)
      ∷ [];
  phys_to_virt = phys_to_virt (2 ^ 64) 0xffff_0000_0000_0000;
  virt_to_phys = virt_to_phys (2 ^ 64) 0xffff_0000_0000_0000;
}

-- The RAM starts at the kernel: the part before it holds the firmware.
abbrev pub riscv64_qemu_virt_mem : MemIf
riscv64_qemu_virt_mem = record {
  phys_ram_ranges = (0x8020_0000, 0x8000_0000 + 0x800_0000 - 0x8020_0000) ∷ [];
  reserved_phys_ram_ranges = [];
  mmio_ranges =
      (0x101000, 0x1000)
      ∷ (0xc000000, 0x210000)
      ∷ (0x10000000, 0x1000)
      ∷ (0x10001000, 0x8000)
      ∷ (0x30000000, 0x10000000)
      ∷ (0x40000000, 0x40000000)
      ∷ [];
  phys_to_virt = phys_to_virt (2 ^ 64) 0xffff_ffc0_0000_0000;
  virt_to_phys = virt_to_phys (2 ^ 64) 0xffff_ffc0_0000_0000;
}

-- The RAM is what the boot loader tells, an argument here.
abbrev pub x86_pc_mem : List RawRange → MemIf
x86_pc_mem phys_ram_ranges = record {
  phys_ram_ranges = phys_ram_ranges;
  reserved_phys_ram_ranges = (0x0, 0x100000) ∷ [];
  mmio_ranges =
      (0xb0000000, 0x10000000)
      ∷ (0xfe000000, 0xc00000)
      ∷ (0xfec00000, 0x1000)
      ∷ (0xfed00000, 0x1000)
      ∷ (0xfee00000, 0x1000)
      ∷ [];
  phys_to_virt = phys_to_virt (2 ^ 64) 0xffff_8000_0000_0000;
  virt_to_phys = virt_to_phys (2 ^ 64) 0xffff_8000_0000_0000;
}

-- The interface of a platform, with the RAM of the boot loader where the platform asks for it.
abbrev pub mem_if : List RawRange → Platform → MemIf
mem_if ram aarch64_bsta1000b = aarch64_bsta1000b_mem
mem_if ram aarch64_phytium_pi = aarch64_phytium_pi_mem
mem_if ram aarch64_qemu_virt = aarch64_qemu_virt_mem
mem_if ram aarch64_raspi = aarch64_raspi_mem
mem_if ram arm_qemu_virt = arm_qemu_virt_mem
mem_if ram loongarch64_qemu_virt = loongarch64_qemu_virt_mem
mem_if ram riscv64_qemu_virt = riscv64_qemu_virt_mem
mem_if ram x86_pc = x86_pc_mem ram
