-- ===== src/Mem/Overlap.antt =====
-- What `check_sorted_ranges_overlap` of axplat/src/mem.rs accepts and what it reports.
use axplat_crates.Prelude.{
  ℕ, ◌+◌, ◌≤◌, ◌<◌, ◌≡◌, ◌↔◌, refl, ap, subst, List, [], ◌∷◌, ◌++◌, arith, All, ok, err, u64_mod,
  Bool-cases, inl, inr, ltb,
}
use axplat_crates.Mem.{
  RawRange, Range, OverlapErr, check_from, check_sorted_ranges_overlap, range_of,
}

-- The range ends inside the address space, so `start + size` does not wrap.
abbrev pub Fits : RawRange → Type 0
Fits (start, size) = start + size < u64_mod

-- Each range starts at or past the end of the one before it, the first at `lo` or past it.
abbrev pub IsSorted : ℕ → List RawRange → Type 0
IsSorted lo [] = Unit
IsSorted lo ((start, size) ∷ ranges) = (lo ≤ start) × IsSorted (start + size) ranges

pub check_from-ok :
    (ranges : List RawRange) (prev : Range)
    → All Fits ranges
    → (check_from prev ranges ≡ ok tt) ↔ IsSorted prev.end ranges
unfolding check_from
check_from-ok [] prev fits = (λ _. tt, λ _. refl)
check_from-ok ((start, size) ∷ ranges) prev fits =
    ground (arith, check_from-ok ranges (range_of (start, size)) fits.1)

-- Of ranges that end inside the address space, the check accepts exactly the lists in which every
-- range starts at or past the end of the one before it.
pub check_sorted_ranges_overlap-ok :
    (ranges : List RawRange)
    → All Fits ranges
    → (check_sorted_ranges_overlap ranges ≡ ok tt) ↔ IsSorted 0 ranges
unfolding check_sorted_ranges_overlap
check_sorted_ranges_overlap-ok ranges fits =
    check_from-ok ranges (record { start = 0; end = 0 }) fits

-- The range before the ones that follow `ranges`, where `prev` stands before them.
abbrev pub last_range : Range → List RawRange → Range
last_range prev [] = prev
last_range prev (r ∷ ranges) = last_range (range_of r) ranges

-- A pair that the check reports: `ranges` are in order up to some range, and the next one starts
-- before its end.
pub record Clash (prev : Range) (ranges : List RawRange) (e : OverlapErr) : Type 0 where
  pub before : List RawRange
  pub at : RawRange
  pub after : List RawRange
  pub split : ranges ≡ before ++ at ∷ after
  pub in_order : IsSorted prev.end before
  pub first : e.0 ≡ last_range prev before
  pub second : e.1 ≡ range_of at
  pub overlap : at.0 < e.0.end

Clash-cons :
    (prev : Range) (r : RawRange) (ranges : List RawRange) (e : OverlapErr)
    → Fits r
    → prev.end ≤ r.0
    → Clash (range_of r) ranges e
    → Clash prev (r ∷ ranges) e
Clash-cons prev r ranges e fits h c = record {
  before = r ∷ c.before;
  at = c.at;
  after = c.after;
  split = ap (λ l. r ∷ l) c.split;
  in_order = (h, subst (λ n. IsSorted n c.before) (omega arith) c.in_order);
  first = c.first;
  second = c.second;
  overlap = c.overlap;
}

check_from-err :
    (ranges : List RawRange) (prev : Range) (e : OverlapErr)
    → All Fits ranges
    → check_from prev ranges ≡ err e
    → Clash prev ranges e
unfolding check_from
check_from-err [] prev e fits h = cc
check_from-err ((start, size) ∷ ranges) prev e fits h = elim (Bool-cases (ltb start prev.end)) [
  | inl clash ↦ record {
    before = [];
    at = (start, size);
    after = ranges;
    split = refl;
    in_order = tt;
    first = ground arith;
    second = ground arith;
    overlap = ground arith;
  }
  | inr order ↦
      Clash-cons prev (start, size) ranges e fits.0 (ground arith)
        (check_from-err ranges (range_of (start, size)) e fits.1 (ground arith))
]

-- An error of the check carries two neighbours of the list (or the empty range 0..0 and the first
-- one), the second of which starts before the end of the first; all ranges before them are in order.
pub check_sorted_ranges_overlap-err :
    (ranges : List RawRange) (e : OverlapErr)
    → All Fits ranges
    → check_sorted_ranges_overlap ranges ≡ err e
    → Clash (record { start = 0; end = 0 }) ranges e
unfolding check_sorted_ranges_overlap
check_sorted_ranges_overlap-err ranges e fits h =
    check_from-err ranges (record { start = 0; end = 0 }) e fits h
