-- ===== src/Platform/Sections/Tests.antt =====
-- The theorems on the tables of platforms/axplat-arm-qemu-virt at concrete addresses.
use axplat_crates.Prelude.{◌≡◌, none, some, arith}
use axplat_crates.Platform.Boot.{device_memory, normal_memory}
use axplat_crates.Platform.Sections.{
  Table, init_page_tables, init_page_tables_after_mmu, translate_sections,
}
use axplat_crates.Platform.Sections.Maps.{init_page_tables-maps, init_page_tables_after_mmu-maps}

abbrev empty : Table
empty j = none

init_page_tables-maps_example :
    (translate_sections (init_page_tables empty) 0x4001_0004 ≡ some (0x4001_0004, normal_memory))
    × (translate_sections (init_page_tables empty) 0xC001_0004 ≡ some (0x4001_0004, normal_memory))
init_page_tables-maps_example = init_page_tables-maps empty 0x4001_0004 (omega arith) (omega arith)

-- The UART's data register.
init_page_tables_after_mmu-maps_example :
    (translate_sections (init_page_tables_after_mmu empty) 0x8900_0000
      ≡ some (0x0900_0000, device_memory))
    × (translate_sections (init_page_tables_after_mmu empty) 0x0900_0000 ≡ none)
init_page_tables_after_mmu-maps_example =
    init_page_tables_after_mmu-maps empty 0x0900_0000 (omega arith)
