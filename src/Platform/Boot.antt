-- ===== src/Platform/Boot.antt =====
-- The page tables that the 64-bit platforms map memory with at boot: `init_boot_page_table` in
-- platforms/axplat-aarch64-*/src/boot.rs, platforms/axplat-loongarch64-qemu-virt/src/boot.rs and
-- platforms/axplat-riscv64-qemu-virt/src/boot.rs. How the hardware reads a table is described by
-- `translate`.
pub mod Maps
pub mod Sv39
mod Tests
use axplat_crates.Prelude.{ℕ, ◌+◌, ◌/◌, ◌%◌, ◌^◌, Bool, Option, none, some, ◌==◌, if◌then◌else◌}

-- The two sets of flags that the code gives a page: READ, WRITE and DEVICE, or EXECUTE.
pub data Attributes : Type 0 where
  device_memory : Attributes
  normal_memory : Attributes

-- `new_page` of `page_table_entry`, which is not part of this repository, for a huge page: what it is
-- given. An entry of the first table holds the address of the next one, from `new_table`.
pub record Block : Type 0 where
  pub paddr : ℕ
  pub attributes : Attributes

pub record BootTables : Type 0 where
  pub l0 : ℕ → Option ℕ
  pub l1 : ℕ → Option Block

abbrev pub empty : BootTables
empty = record { l0 = λ i. none; l1 = λ i. none }

abbrev pub store_l0 : ℕ → ℕ → BootTables → BootTables
store_l0 i table t = record t { l0 = λ j. if j == i then some table else t.l0 j }

abbrev pub store_l1 : ℕ → ℕ → Attributes → BootTables → BootTables
store_l1 i paddr attributes t = record t {
  l1 = λ j. if j == i then some (record { paddr = paddr; attributes = attributes }) else t.l1 j;
}

-- The address of the second table is an argument.
pub qemu_virt_boot : ℕ → BootTables → BootTables
qemu_virt_boot l1_paddr t =
    store_l1 1 0x4000_0000 normal_memory (store_l1 0 0 device_memory (store_l0 0 l1_paddr t))

pub raspi_boot : ℕ → BootTables → BootTables
raspi_boot l1_paddr t = store_l1 3 0xc000_0000 device_memory (
    store_l1 2 0x8000_0000 normal_memory
      (store_l1 1 0x4000_0000 normal_memory (store_l1 0 0 normal_memory (store_l0 0 l1_paddr t))))

pub bsta1000b_boot : ℕ → BootTables → BootTables
bsta1000b_boot l1_paddr t =
    store_l1 2 0x8000_0000 normal_memory
      (store_l1 1 0x4000_0000 device_memory (store_l1 0 0 device_memory (store_l0 0 l1_paddr t)))

pub phytium_pi_boot : ℕ → BootTables → BootTables
phytium_pi_boot l1_paddr t =
    store_l1 2 0x8000_0000 normal_memory (store_l1 0 0 device_memory (store_l0 0 l1_paddr t))

pub loongarch_boot : ℕ → BootTables → BootTables
loongarch_boot l1_paddr t =
    store_l1 2 0x8000_0000 normal_memory (store_l1 0 0 device_memory (store_l0 0 l1_paddr t))

-- A block of 2 ^ 30 bytes.
abbrev pub in_block : ℕ → Option Block → Option (ℕ × Attributes)
in_block va none = none
in_block va (some b) = some (b.paddr + va % 2 ^ 30, b.attributes)

abbrev pub next_table : ℕ → ℕ → BootTables → Option ℕ → Option (ℕ × Attributes)
next_table l1_paddr va t none = none
next_table l1_paddr va t (some table) =
    if table == l1_paddr then in_block va (t.l1 (va / 2 ^ 30 % 512)) else none

-- Nine bits of the address for each table, from bit 39 and from bit 30 on.
abbrev pub translate : ℕ → BootTables → ℕ → Option (ℕ × Attributes)
translate l1_paddr t va = next_table l1_paddr va t (t.l0 (va / 2 ^ 39 % 512))
