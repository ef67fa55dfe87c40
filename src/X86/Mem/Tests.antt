-- ===== src/X86/Mem/Tests.antt =====
-- The theorem on the memory map of platforms/axplat-x86-pc has no hypothesis on the map; two maps.
use axplat_crates.Prelude.{
  ◌≡◌, refl, true, false, none, some, List, [], ◌∷◌, returns, panics, ◌>>=◌, replicate,
}
use axplat_crates.X86.Mem.{MemoryRegion, init, phys_ram_ranges}
use axplat_crates.X86.Mem.Laws.{init-available}

-- As QEMU gives it: low memory, a hole, and the rest.
abbrev qemu_map : List MemoryRegion
qemu_map =
    record { base_address = 0; length = 0x9_fc00; available = true }
    ∷ record { base_address = 0x9_fc00; length = 0x400; available = false }
    ∷ record { base_address = 0x10_0000; length = 0x7ee_0000; available = true }
    ∷ []

init-available_example :
    (init (some (some qemu_map)) none >>= phys_ram_ranges)
    ≡ returns ((0, 0x9_fc00) ∷ (0x10_0000, 0x7ee_0000) ∷ [])
init-available_example = init-available qemu_map

too_many :
    init
      (some (some (replicate 17 (record { base_address = 0; length = 1; available = true }))))
      none
    ≡ panics
unfolding init
too_many = refl
