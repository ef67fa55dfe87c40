-- ===== src/Platform/Boot/Tests.antt =====
-- The theorems on the boot tables of the 64-bit platforms at concrete addresses.
use axplat_crates.Prelude.{◌≡◌, some, arith}
use axplat_crates.Platform.Boot.{normal_memory, empty, translate}
use axplat_crates.Platform.Boot.Maps.{raspi, boot, init_boot_page_table-maps}
use axplat_crates.Platform.Boot.Sv39.{
  init_boot_page_table, zeros, translate_sv39, init_boot_page_table-sv39,
}

-- Where the kernel of the Raspberry Pi starts.
init_boot_page_table-maps_example :
    (translate 0x9_0000 (boot raspi 0x9_0000 empty) 0x8_0000 ≡ some (0x8_0000, normal_memory))
    × (translate 0x9_0000 (boot raspi 0x9_0000 empty) 0xffff_0000_0008_0000
        ≡ some (0x8_0000, normal_memory))
init_boot_page_table-maps_example = init_boot_page_table-maps raspi 0x9_0000 0x8_0000 (omega arith)

init_boot_page_table-sv39_example :
    (translate_sv39 (init_boot_page_table zeros) 0x8020_0000 ≡ some 0x8020_0000)
    × (translate_sv39 (init_boot_page_table zeros) 0xffff_ffc0_8020_0000 ≡ some 0x8020_0000)
init_boot_page_table-sv39_example = init_boot_page_table-sv39 0x8020_0000 (omega arith)
