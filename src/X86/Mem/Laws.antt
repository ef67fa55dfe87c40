-- ===== src/X86/Mem/Laws.antt =====
-- Which memory maps platforms/axplat-x86-pc/src/mem.rs takes.
use axplat_crates.Prelude.{
  suc, ◌+◌, ◌≤◌, ◌<◌, ◌≡◌, ◌∙◌, none, some, List, [], ◌∷◌, ◌++◌, length, leb, if◌then◌else◌,
  returns, panics, ◌>>=◌, arith, append_assoc, append-nil, length-append, Bool-cases, inl, inr,
  dec_lt, lt→ltb, le→not-ltb,
}
use axplat_crates.Mem.{RawRange}
use axplat_crates.X86.Mem.{max_regions, MemoryRegion, collect, init, phys_ram_ranges}

-- The available regions of a memory map, in order.
abbrev pub available_ranges : List MemoryRegion → List RawRange
available_ranges [] = []
available_ranges (r ∷ rs) =
    if r.available then (r.base_address, r.length) ∷ available_ranges rs else available_ranges rs

collect-fits :
    (rs : List MemoryRegion) (regions : List RawRange)
    → length regions + length (available_ranges rs) ≤ max_regions
    → collect rs regions ≡ returns (regions ++ available_ranges rs)
unfolding collect
collect-fits [] regions h = rw append-nil
collect-fits (r ∷ rs) regions h = elim (Bool-cases r.available) [
  | inl e ↦
      let more : length (available_ranges (r ∷ rs)) ≡ suc (length (available_ranges rs)) = rw e in
      let x : RawRange = (r.base_address, r.length) in
      rw (e, lt→ltb (length regions) max_regions (omega arith))
        (collect-fits rs (regions ++ x ∷ []) (omega (arith, length-append regions (x ∷ [])))
          ∙ rw append_assoc)
  | inr e ↦
      let same : length (available_ranges (r ∷ rs)) ≡ length (available_ranges rs) = rw e in
      rw e (collect-fits rs regions (omega arith))
]

collect-full :
    (rs : List MemoryRegion) (regions : List RawRange)
    → length regions ≤ max_regions
    → max_regions < length regions + length (available_ranges rs)
    → collect rs regions ≡ panics
unfolding collect
collect-full [] regions le h = absurd (omega arith)
collect-full (r ∷ rs) regions le h = elim (Bool-cases r.available) [
  | inl e ↦
      let more : length (available_ranges (r ∷ rs)) ≡ suc (length (available_ranges rs)) = rw e in
      let x : RawRange = (r.base_address, r.length) in
      elim (dec_lt (length regions) max_regions) [
        | yes free ↦
            rw (e, lt→ltb (length regions) max_regions free)
              (collect-full rs (regions ++ x ∷ []) (omega (arith, length-append regions (x ∷ [])))
                (omega (arith, length-append regions (x ∷ []))))
        | no full ↦ rw (e, le→not-ltb (length regions) max_regions (omega arith))
      ]
  | inr e ↦
      let same : length (available_ranges (r ∷ rs)) ≡ length (available_ranges rs) = rw e in
      rw e (collect-full rs regions le (omega arith))
]

-- The first `init` takes exactly the memory maps of at most sixteen available regions, and
-- `phys_ram_ranges` then gives these regions in their order; with more it panics.
pub init-available :
    (rs : List MemoryRegion)
    → (init (some (some rs)) none >>= phys_ram_ranges) ≡ (
        if leb (length (available_ranges rs)) max_regions
        then returns (available_ranges rs)
        else panics)
unfolding init
init-available rs = elim (dec_lt max_regions (length (available_ranges rs))) [
  | yes many ↦ rw (collect-full rs [] (omega arith) (omega arith)) (ground arith)
  | no few ↦ rw (collect-fits rs [] (omega arith)) (ground arith)
]

pub init-first :
    (rs : List MemoryRegion)
    → length (available_ranges rs) ≤ max_regions
    → init (some (some rs)) none ≡ returns (some (available_ranges rs))
unfolding init
init-first rs few = rw (collect-fits rs [] (omega arith))

-- A second initialisation panics, also where the memory map would fit.
pub init-again :
    (rs : List MemoryRegion) (regions : List RawRange)
    → init (some (some rs)) (some regions) ≡ panics
unfolding init
init-again rs regions = elim (dec_lt max_regions (length (available_ranges rs))) [
  | yes many ↦ rw (collect-full rs [] (omega arith) (omega arith))
  | no few ↦ rw (collect-fits rs [] (omega arith))
]
