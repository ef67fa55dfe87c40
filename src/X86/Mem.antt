-- ===== src/X86/Mem.antt =====
-- Physical memory of platforms/axplat-x86-pc/src/mem.rs: the RAM that the boot loader tells.
pub mod Laws
mod Tests
use axplat_crates.Prelude.{
  ℕ, Bool, Option, none, some, List, [], ◌∷◌, ◌++◌, length, ltb, if◌then◌else◌, Exec, returns,
  panics, ◌>>=◌,
}
use axplat_crates.Mem.{RawRange}

abbrev pub max_regions : ℕ
max_regions = 16

-- A region of the memory map of Multiboot: `available` tells whether its type is that.
pub record MemoryRegion : Type 0 where
  pub base_address : ℕ
  pub length : ℕ
  pub available : Bool

-- `heapless::Vec::push`, unwrapped, on a vector of sixteen elements at most.
abbrev pub push : RawRange → List RawRange → Exec (List RawRange)
push r regions = if ltb (length regions) max_regions then returns (regions ++ r ∷ []) else panics

-- `for r in info.memory_regions()`
pub collect : List MemoryRegion → List RawRange → Exec (List RawRange)
collect [] regions = returns regions
collect (r ∷ rs) regions =
    if r.available
    then (push (r.base_address, r.length) regions >>= λ regions'. collect rs regions')
    else collect rs regions

-- `info` is what `Multiboot::from_ptr` and `memory_regions` give, both unwrapped. `ram_regions` is
-- the value of `RAM_REGIONS`, which a second initialisation finds and panics.
pub init :
    (info : Option (Option (List MemoryRegion))) (ram_regions : Option (List RawRange))
    → Exec (Option (List RawRange))
unfolding collect
init none ram_regions = panics
init (some none) ram_regions = panics
init (some (some rs)) ram_regions = do
  regions ← collect rs []
  elim ram_regions [ none ↦ returns (some regions) | some _ ↦ panics ]

-- The use of `RAM_REGIONS` before `init` panics.
abbrev pub phys_ram_ranges : Option (List RawRange) → Exec (List RawRange)
phys_ram_ranges none = panics
phys_ram_ranges (some regions) = returns regions
