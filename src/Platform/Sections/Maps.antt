-- ===== src/Platform/Sections/Maps.antt =====
-- What the tables of platforms/axplat-arm-qemu-virt/src/boot.rs map, before and after the MMU is on.
use axplat_crates.Prelude.{
  ℕ, zero, suc, ◌+◌, ◌-◌, ◌*◌, ◌/◌, ◌%◌, ◌≤◌, ◌<◌, ◌≡◌, refl, ap, ◌∙◌, Option, some, ltb,
  if◌then◌else◌, arith, dec_lt, eq→==, lt→ltb, le→not-ltb,
}
use axplat_crates.Platform.Boot.{Attributes, device_memory, normal_memory, Block}
use axplat_crates.Platform.Sections.{
  Table, section_size, store, map_sections, init_page_tables, init_page_tables_after_mmu,
  in_section, translate_sections,
}

abbrev section : ℕ → Attributes → Option Block
section paddr attributes = some (record { paddr = paddr; attributes = attributes })

-- The loop writes the entries of its range, and leaves the others.
map_sections-before :
    (n i index base j : ℕ) (a : Attributes) (t : Table)
    → j < index + i
    → map_sections n i index base a t j ≡ t j
unfolding map_sections
map_sections-before zero i index base j a t h = refl
map_sections-before (suc n) i index base j a t h =
    map_sections-before n (i + 1) index base j a (store (index + i) (base + i * section_size) a t)
      (omega arith)
    ∙ ground arith

map_sections-behind :
    (n i index base j : ℕ) (a : Attributes) (t : Table)
    → index + i + n ≤ j
    → map_sections n i index base a t j ≡ t j
unfolding map_sections
map_sections-behind zero i index base j a t h = refl
map_sections-behind (suc n) i index base j a t h =
    map_sections-behind n (i + 1) index base j a (store (index + i) (base + i * section_size) a t)
      (omega arith)
    ∙ ground arith

map_sections-inside :
    (n i index base j : ℕ) (a : Attributes) (t : Table)
    → index + i ≤ j
    → j < index + i + n
    → map_sections n i index base a t j ≡ section (base + (j - index) * section_size) a
unfolding map_sections
map_sections-inside zero i index base j a t l h = absurd (omega arith)
map_sections-inside (suc n) i index base j a t l h = elim (dec_lt (index + i) j) [
  | yes later ↦
      map_sections-inside n (i + 1) index base j a (store (index + i) (base + i * section_size) a t)
        (omega arith) (omega arith)
  | no now ↦
      let here : j ≡ index + i = omega arith in
      let count : j - index ≡ i = omega arith in
      map_sections-before n (i + 1) index base j a (store (index + i) (base + i * section_size) a t)
        (omega arith)
      ∙ rw (eq→== j (index + i) here, count)
]

-- What an entry for the section of `pa` gives.
in_section-of :
    (va pa base n : ℕ) (a : Attributes)
    → va % section_size ≡ pa % section_size
    → base + n * section_size ≡ pa / section_size * section_size
    → in_section va (section (base + n * section_size) a) ≡ some (pa, a)
in_section-of va pa base n a r e =
    let sum : base + n * section_size + va % section_size ≡ pa = omega arith in
    ap (λ (x : ℕ). some (x, a)) sum

-- After `init_page_tables`, whatever the table held, the first four megabytes of the RAM are mapped
-- to themselves and, at the linear map's addresses, to the same memory.
pub init_page_tables-maps :
    (t : Table) (pa : ℕ)
    → 0x4000_0000 ≤ pa
    → pa < 0x4040_0000
    → (translate_sections (init_page_tables t) pa ≡ some (pa, normal_memory))
      × (translate_sections (init_page_tables t) (pa + 0x8000_0000) ≡ some (pa, normal_memory))
unfolding init_page_tables
init_page_tables-maps t pa l h =
    let va : ℕ = pa + 0x8000_0000 in
    let identity : Table = map_sections 4 0 0x400 0x4000_0000 normal_memory t in
    (
      ap (in_section pa) (
            map_sections-before 4 0 0xC00 0x4000_0000 (pa / section_size) normal_memory identity
              (omega arith)
            ∙ map_sections-inside 4 0 0x400 0x4000_0000 (pa / section_size) normal_memory t
                (omega arith) (omega arith))
          ∙ in_section-of pa pa 0x4000_0000 (pa / section_size - 0x400) normal_memory refl
              (omega arith),
      ap (in_section va) (
            map_sections-inside 4 0 0xC00 0x4000_0000 (va / section_size) normal_memory identity
              (omega arith) (omega arith))
          ∙ in_section-of va pa 0x4000_0000 (va / section_size - 0xC00) normal_memory (omega arith)
              (omega arith),
    )

-- After `init_page_tables_after_mmu`, whatever the table held, the linear map's address of every
-- physical address below 0x8000_0000 is mapped to that address: as device memory below
-- 0x4000_0000, as normal memory from there on. The entries for the addresses below 0x8000_0000
-- are left as they were.
pub init_page_tables_after_mmu-maps :
    (t : Table) (pa : ℕ)
    → pa < 0x8000_0000
    → (translate_sections (init_page_tables_after_mmu t) (pa + 0x8000_0000)
        ≡ some (pa, if ltb pa 0x4000_0000 then device_memory else normal_memory))
      × (translate_sections (init_page_tables_after_mmu t) pa ≡ translate_sections t pa)
unfolding init_page_tables_after_mmu
init_page_tables_after_mmu-maps t pa h =
    let va : ℕ = pa + 0x8000_0000 in
    let devices : Table = map_sections 0x400 0 0x800 0 device_memory t in
    (
      elim (dec_lt pa 0x4000_0000) [
        | yes low ↦
            ap (in_section va) (
              map_sections-before 0x400 0 0xC00 0x4000_0000 (va / section_size) normal_memory
                devices (omega arith)
              ∙ map_sections-inside 0x400 0 0x800 0 (va / section_size) device_memory t
                  (omega arith) (omega arith))
            ∙ in_section-of va pa 0 (va / section_size - 0x800) device_memory (omega arith)
                (omega arith)
            ∙ rw (lt→ltb pa 0x4000_0000 low)
        | no high ↦
            ap (in_section va) (
              map_sections-inside 0x400 0 0xC00 0x4000_0000 (va / section_size) normal_memory
                devices (omega arith) (omega arith))
            ∙ in_section-of va pa 0x4000_0000 (va / section_size - 0xC00) normal_memory
                (omega arith) (omega arith)
            ∙ rw (le→not-ltb pa 0x4000_0000 (omega arith))
      ],
      ap (in_section pa) (
          map_sections-before 0x400 0 0xC00 0x4000_0000 (pa / section_size) normal_memory devices
            (omega arith)
          ∙ map_sections-before 0x400 0 0x800 0 (pa / section_size) device_memory t (omega arith)),
    )
