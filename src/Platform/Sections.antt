-- ===== src/Platform/Sections.antt =====
-- The page table of the 32-bit platform, platforms/axplat-arm-qemu-virt/src/boot.rs: 4096 entries for
-- sections of 2 ^ 20 bytes each. The entry that `new_page` makes is what it is given.
pub mod Maps
mod Tests
use axplat_crates.Prelude.{
  ℕ, zero, suc, ◌+◌, ◌*◌, ◌/◌, ◌%◌, ◌^◌, Option, none, some, ◌==◌, if◌then◌else◌,
}
use axplat_crates.Platform.Boot.{Attributes, device_memory, normal_memory, Block}

abbrev pub Table : Type 0
Table = ℕ → Option Block

abbrev pub early_boot_section_num : ℕ
early_boot_section_num = 4

abbrev pub section_size : ℕ
section_size = 0x10_0000

abbrev pub store : ℕ → ℕ → Attributes → Table → Table
store index paddr attributes t j =
    if j == index then some (record { paddr = paddr; attributes = attributes }) else t j

-- `for i in i..i + n`, with the entries from `index` and the sections from `base` on.
pub map_sections : (n i index base : ℕ) → Attributes → Table → Table
map_sections zero i index base attributes t = t
map_sections (suc n) i index base attributes t =
    map_sections n (i + 1) index base attributes
      (store (index + i) (base + i * section_size) attributes t)

-- The first loop writes the entry `paddr >> 20`.
pub init_page_tables : Table → Table
unfolding map_sections
init_page_tables t =
    map_sections early_boot_section_num 0 (0xC000_0000 / 2 ^ 20) 0x4000_0000 normal_memory
      (map_sections early_boot_section_num 0 (0x4000_0000 / 2 ^ 20) 0x4000_0000 normal_memory t)

pub init_page_tables_after_mmu : Table → Table
unfolding map_sections
init_page_tables_after_mmu t =
    map_sections (0x4000_0000 / section_size) 0 0xC00 0x4000_0000 normal_memory
      (map_sections (0x4000_0000 / section_size) 0 0x800 0 device_memory t)

abbrev pub in_section : ℕ → Option Block → Option (ℕ × Attributes)
in_section va none = none
in_section va (some b) = some (b.paddr + va % section_size, b.attributes)

-- How the hardware reads the table.
abbrev pub translate_sections : Table → ℕ → Option (ℕ × Attributes)
translate_sections t va = in_section va (t (va / section_size))
