-- ===== src/Mem.antt =====
-- Physical memory: axplat/src/mem.rs. The regions and their flags, the platform's interface
-- `MemIf`, the overlap check of sorted ranges and the difference of range lists.
-- A `usize` is a number below 2 ^ 64, and `start + size` wraps around as in a release build.
pub mod Overlap
pub mod Difference
pub mod Regions
mod Tests
use Prim.Native.Nat.{bit_or}
use Prim.Native.String.{String}
use axplat_crates.Prelude.{
  ℕ, ◌+◌, ◌-◌, ◌*◌, ◌^◌, ◌<◌, Bool, List, [], ◌∷◌, ltb, leb, if◌then◌else◌, Result, ok, err,
  and_then, add64, u64_mod, foldl_from,
}
-- `bitflags` numbers: the bits of `MemRegionFlags`.
pub mod Flags

pub record PhysMemRegion : Type 0 where
  pub paddr : ℕ
  pub size : ℕ
  pub flags : ℕ
  pub name : String

-- `(start, size)`
abbrev pub RawRange : Type 0
RawRange = ℕ × ℕ

-- `core::ops::Range<usize>`
pub record Range : Type 0 where
  pub start : ℕ
  pub end : ℕ

pub new_ram : ℕ → ℕ → String → PhysMemRegion
new_ram start size name = record {
  paddr = start;
  size = size;
  flags = Flags.default_ram_flags;
  name = name;
}

pub new_mmio : ℕ → ℕ → String → PhysMemRegion
new_mmio start size name = record {
  paddr = start;
  size = size;
  flags = Flags.default_mmio_flags;
  name = name;
}

pub new_reserved : ℕ → ℕ → String → PhysMemRegion
new_reserved start size name = record {
  paddr = start;
  size = size;
  flags = Flags.default_reserved_flags;
  name = name;
}

-- What a platform provides; addresses are plain numbers.
pub record MemIf : Type 0 where
  pub phys_ram_ranges : List RawRange
  pub reserved_phys_ram_ranges : List RawRange
  pub mmio_ranges : List RawRange
  pub phys_to_virt : ℕ → ℕ
  pub virt_to_phys : ℕ → ℕ

-- The sum of an iterator of `usize`.
unfoldable pub sum_sizes : ℕ → List RawRange → ℕ
sum_sizes acc [] = acc
sum_sizes acc ((_, size) ∷ ranges) = sum_sizes (add64 acc size) ranges

unfoldable pub total_ram_size : MemIf → ℕ
unfolding sum_sizes
total_ram_size m = sum_sizes 0 m.phys_ram_ranges

abbrev pub OverlapErr : Type 0
OverlapErr = Range × Range

abbrev pub range_of : RawRange → Range
range_of (start, size) = record { start = start; end = add64 start size }

-- The loop of `check_sorted_ranges_overlap`, after `prev`.
unfoldable pub check_from : Range → List RawRange → Result (Unit {0}) OverlapErr
check_from prev [] = ok tt
check_from prev ((start, size) ∷ ranges) =
    if ltb start prev.end
    then err (prev, range_of (start, size))
    else check_from (range_of (start, size)) ranges

unfoldable pub check_sorted_ranges_overlap : List RawRange → Result (Unit {0}) OverlapErr
unfolding check_from
check_sorted_ranges_overlap ranges = check_from (record { start = 0; end = 0 }) ranges

-- `result_op` is an `FnMut` closure: `op` over the state `S` that it captures.
module _ {ℓ} {S : Type ℓ} (op : RawRange → S → S) where
  -- The loop over `exclude`, for a range that is left from `start` to `end`: the new `start`.
  unfoldable pub exclude_loop : List RawRange → ℕ → ℕ → S → ℕ × S
  exclude_loop [] start end s = (start, s)
  exclude_loop ((exclude_start, exclude_size) ∷ exclude) start end s =
      let exclude_end = add64 exclude_start exclude_size in
      let skip = exclude_loop exclude start end s in
      let emitted = exclude_loop exclude exclude_end end (op (start, exclude_start - start) s) in
      let advance = exclude_loop exclude exclude_end end s in
      if leb exclude_end start
      then skip
      else if leb end exclude_start
      then (start, s)
      else if ltb start exclude_start
      then emitted
      else advance

  -- The body of the loop over `from`.
  unfoldable pub cut_range : List RawRange → RawRange → S → S
  unfolding exclude_loop
  cut_range exclude (start, size) s =
      let end = add64 start size in
      let (start', s') = exclude_loop exclude start end s in
      if ltb start' end then op (start', end - start') s' else s'

  -- An error stands for a return before the first call of `op`.
  unfoldable pub ranges_difference : List RawRange → List RawRange → S → Result S OverlapErr
  unfolding cut_range check_sorted_ranges_overlap
  ranges_difference from exclude s =
      and_then (check_sorted_ranges_overlap exclude)
        (λ _. ok (foldl_from (cut_range exclude) s from))
