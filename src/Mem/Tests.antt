-- ===== src/Mem/Tests.antt =====
-- The tests of axplat/src/mem.rs, and the theorems of its model at concrete ranges.
use axplat_crates.Prelude.{
  ℕ, suc, ◌≡◌, ◌↔◌, refl, not, ◌&&◌, List, [], ◌∷◌, arith, All, ok, err, and_then, foldl_from,
}
use axplat_crates.Mem.{
  RawRange, Range, MemIf, OverlapErr, check_sorted_ranges_overlap, ranges_difference,
  total_ram_size,
}
use axplat_crates.Mem.Overlap.{
  IsSorted, Clash, check_sorted_ranges_overlap-ok, check_sorted_ranges_overlap-err,
}
use axplat_crates.Mem.Difference.{
  push, covers, ranges_difference_exact, ranges_difference_refuses, ranges_difference_replays,
}
use axplat_crates.Mem.Difference.Ascending.{IsNonempty, ranges_difference_ascending}
use axplat_crates.Mem.Regions.{total_ram_size-eq_total}

abbrev range : ℕ → ℕ → Range
range start end = record { start = start; end = end }

abbrev two : List RawRange
two = (0, 10) ∷ (20, 10) ∷ []

abbrev holes : List RawRange
holes = (5, 5) ∷ (25, 5) ∷ []

abbrev unsorted : List RawRange
unsorted = (0, 10) ∷ (20, 10) ∷ (10, 10) ∷ []

check_accepts : check_sorted_ranges_overlap ((0, 10) ∷ (10, 10) ∷ (20, 10) ∷ []) ≡ ok tt
unfolding check_sorted_ranges_overlap
check_accepts = refl

check_unsorted : check_sorted_ranges_overlap unsorted ≡ err (range 20 30, range 10 20)
unfolding check_sorted_ranges_overlap
check_unsorted = refl

difference_holes : ranges_difference push two holes [] ≡ ok ((0, 5) ∷ (20, 5) ∷ [])
unfolding ranges_difference
difference_holes = refl

difference_thin :
    ranges_difference push two ((5, 1) ∷ (25, 1) ∷ (30, 1) ∷ []) []
    ≡ ok ((0, 5) ∷ (6, 4) ∷ (20, 5) ∷ (26, 4) ∷ [])
unfolding ranges_difference
difference_thin = refl

difference_across : ranges_difference push two ((5, 20) ∷ []) [] ≡ ok ((0, 5) ∷ (25, 5) ∷ [])
unfolding ranges_difference
difference_across = refl

difference_all : ranges_difference push ((10, 10) ∷ []) ((0, 30) ∷ []) [] ≡ ok []
unfolding ranges_difference
difference_all = refl

check_sorted_ranges_overlap-ok_example : (check_sorted_ranges_overlap two ≡ ok tt) ↔ IsSorted 0 two
check_sorted_ranges_overlap-ok_example = check_sorted_ranges_overlap-ok two (omega arith)

check_sorted_ranges_overlap-err_example : Clash (range 0 0) unsorted (range 20 30, range 10 20)
check_sorted_ranges_overlap-err_example =
    check_sorted_ranges_overlap-err unsorted (range 20 30, range 10 20) (omega arith) check_unsorted

ranges_difference_exact_example :
    (out : List RawRange) × (ranges_difference push two holes [] ≡ ok out)
    × ((x : ℕ) → covers x out ≡ (covers x two && not (covers x holes)))
ranges_difference_exact_example =
    ranges_difference_exact two holes (omega arith) (omega arith) (omega arith)

ranges_difference_refuses_example :
    (e : OverlapErr) × (check_sorted_ranges_overlap unsorted ≡ err e)
    × (ranges_difference push two unsorted [] ≡ err e)
ranges_difference_refuses_example =
    ranges_difference_refuses push two unsorted [] (omega arith) (λ s. omega arith)

ranges_difference_replays_example :
    ranges_difference (λ r n. suc n) two holes 0
    ≡ and_then (ranges_difference push two holes []) (λ out. ok (foldl_from (λ r n. suc n) 0 out))
ranges_difference_replays_example = ranges_difference_replays (λ r n. suc n) 0 two holes

ranges_difference_ascending_example :
    All IsNonempty ((0, 5) ∷ (20, 5) ∷ []) × IsSorted 0 ((0, 5) ∷ (20, 5) ∷ [])
ranges_difference_ascending_example =
    ranges_difference_ascending two holes ((0, 5) ∷ (20, 5) ∷ []) (omega arith) (omega arith)
      (omega arith) difference_holes

-- 128 MiB of RAM
abbrev memory : MemIf
memory = record {
  phys_ram_ranges = (0x8000_0000, 0x800_0000) ∷ [];
  reserved_phys_ram_ranges = [];
  mmio_ranges = [];
  phys_to_virt = λ p. p;
  virt_to_phys = λ v. v;
}

total_ram_size-eq_total_example : total_ram_size memory ≡ 0x800_0000
total_ram_size-eq_total_example = total_ram_size-eq_total memory (omega arith)
