-- ===== src/Mem/Regions.antt =====
-- The kinds of region and the total memory size of axplat/src/mem.rs.
use Prim.Native.Nat.{bit_and}
use Prim.Native.String.{String}
use axplat_crates.Prelude.{ℕ, ◌+◌, ◌<◌, ◌≡◌, refl, List, [], ◌∷◌, arith, u64_mod, add64}
use axplat_crates.Mem.{
  RawRange, PhysMemRegion, MemIf, new_ram, new_mmio, new_reserved, sum_sizes, total_ram_size,
}
use axplat_crates.Mem.Flags

-- The sizes added up without a bound.
abbrev pub total : List RawRange → ℕ
total [] = 0
total ((_, size) ∷ ranges) = size + total ranges

-- `bitflags`' `contains`
abbrev Has : PhysMemRegion → ℕ → Type 0
Has r flag = bit_and r.flags flag ≡ flag

abbrev Lacks : PhysMemRegion → ℕ → Type 0
Lacks r flag = bit_and r.flags flag ≡ 0

sum_sizes-eq_total :
    (acc : ℕ) (ranges : List RawRange)
    → acc + total ranges < u64_mod
    → sum_sizes acc ranges ≡ acc + total ranges
unfolding sum_sizes
sum_sizes-eq_total acc [] h = omega arith
sum_sizes-eq_total acc ((start, size) ∷ ranges) h =
    omega (arith, sum_sizes-eq_total (add64 acc size) ranges (omega arith))

-- Where the sizes of the RAM ranges add up to less than 2 ^ 64, `total_ram_size` is their sum.
pub total_ram_size-eq_total :
    (m : MemIf) → total m.phys_ram_ranges < u64_mod → total_ram_size m ≡ total m.phys_ram_ranges
unfolding total_ram_size
total_ram_size-eq_total m h = omega (arith, sum_sizes-eq_total 0 m.phys_ram_ranges (omega arith))

-- Every region that a constructor makes is readable and writable and not executable. RAM alone is
-- free for allocation, MMIO alone is device memory, and just those two that are not RAM are reserved.
pub regions_by_kind :
    (start size : ℕ) (name : String)
    → (let r = new_ram start size name in
        Has r Flags.read
        × Has r Flags.write
        × Has r Flags.free
        × Lacks r Flags.reserved
        × Lacks r Flags.device
        × Lacks r Flags.execute)
      × (let r = new_mmio start size name in
          Has r Flags.read
          × Has r Flags.write
          × Has r Flags.device
          × Has r Flags.reserved
          × Lacks r Flags.free
          × Lacks r Flags.execute)
      × (let r = new_reserved start size name in
          Has r Flags.read
          × Has r Flags.write
          × Has r Flags.reserved
          × Lacks r Flags.free
          × Lacks r Flags.device
          × Lacks r Flags.execute)
unfolding new_ram new_mmio new_reserved
regions_by_kind start size name = (
  (refl, refl, refl, refl, refl, refl),
  (refl, refl, refl, refl, refl, refl),
  (refl, refl, refl, refl, refl, refl),
)
