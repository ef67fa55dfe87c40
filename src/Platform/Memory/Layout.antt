-- ===== src/Platform/Memory/Layout.antt =====
-- The RAM and the devices of a platform do not overlap, and the linear map reaches all of them.
use axplat_crates.Prelude.{
  ℕ, ◌+◌, ◌-◌, ◌≤◌, ◌<◌, ◌≡◌, ◌≢◌, refl, sym, ap, ◌∙◌, leb, ltb, List, [], ◌∷◌, ◌++◌, if◌then◌else◌,
  ok, All, arith, Bool-cases, inl, inr,
}
use axplat_crates.Mem.{RawRange, check_sorted_ranges_overlap}
use axplat_crates.Mem.Overlap.{Fits, IsSorted, check_sorted_ranges_overlap-ok}
use axplat_crates.Mem.Difference.{contains}
use axplat_crates.Platform.Memory.Linear.{phys_to_virt-virt_to_phys, phys_to_virt-linear}
use axplat_crates.Platform.Memory.{
  Platform, aarch64_bsta1000b, aarch64_phytium_pi, aarch64_qemu_virt, aarch64_raspi, arm_qemu_virt,
  loongarch64_qemu_virt, riscv64_qemu_virt, x86_pc, word, phys_virt_offset, mem_if,
}

-- The number of ranges that hold an address.
abbrev pub holders : ℕ → List RawRange → ℕ
holders x [] = 0
holders x (r ∷ rs) = (if contains x r then 1 else 0) + holders x rs

holders-below : (x lo : ℕ) (rs : List RawRange) → IsSorted lo rs → x < lo → holders x rs ≡ 0
holders-below x lo [] s h = refl
holders-below x lo ((start, size) ∷ rs) (le, s) h =
    ground (arith, holders-below x (start + size) rs s (omega arith))

holders-sorted : (x lo : ℕ) (rs : List RawRange) → IsSorted lo rs → holders x rs ≤ 1
holders-sorted x lo [] s = omega arith
holders-sorted x lo ((start, size) ∷ rs) (le, s) = elim (Bool-cases (ltb x (start + size))) [
  | inl e ↦
      let below : x < start + size = ground arith in
      ground (arith, holders-below x (start + size) rs s below)
  | inr e ↦ ground (arith, holders-sorted x (start + size) rs s)
]

-- The ranges in the order of their starts.
abbrev insert : RawRange → List RawRange → List RawRange
insert r [] = r ∷ []
insert r (s ∷ ss) = if leb r.0 s.0 then r ∷ s ∷ ss else s ∷ insert r ss

abbrev by_start : List RawRange → List RawRange
by_start [] = []
by_start (r ∷ rs) = insert r (by_start rs)

holders-insert :
    (x : ℕ) (r : RawRange) (rs : List RawRange) → holders x (insert r rs) ≡ holders x (r ∷ rs)
holders-insert x r [] = refl
holders-insert x r (s ∷ ss) = elim (Bool-cases (leb r.0 s.0)) [
  | inl e ↦ rw e
  | inr e ↦ rw e (omega (arith, holders-insert x r ss))
]

holders-by_start : (x : ℕ) (rs : List RawRange) → holders x (by_start rs) ≡ holders x rs
holders-by_start x [] = refl
holders-by_start x (r ∷ rs) = omega (arith, holders-insert x r (by_start rs), holders-by_start x rs)

-- The RAM and the device memory of a platform; on x86-pc, where the boot loader tells the RAM, the
-- device memory only.
abbrev fixed_ranges : Platform → List RawRange
fixed_ranges p = (mem_if [] p).phys_ram_ranges ++ (mem_if [] p).mmio_ranges

fixed_ranges-ok : (p : Platform) → check_sorted_ranges_overlap (by_start (fixed_ranges p)) ≡ ok tt
unfolding check_sorted_ranges_overlap
fixed_ranges-ok aarch64_bsta1000b = refl
fixed_ranges-ok aarch64_phytium_pi = refl
fixed_ranges-ok aarch64_qemu_virt = refl
fixed_ranges-ok aarch64_raspi = refl
fixed_ranges-ok arm_qemu_virt = refl
fixed_ranges-ok loongarch64_qemu_virt = refl
fixed_ranges-ok riscv64_qemu_virt = refl
fixed_ranges-ok x86_pc = refl

fixed_ranges-Fits : (p : Platform) → All Fits (by_start (fixed_ranges p))
fixed_ranges-Fits aarch64_bsta1000b = (
  omega arith,
  (omega arith, (omega arith, (omega arith, (omega arith, (omega arith, (omega arith, tt)))))),
)
fixed_ranges-Fits aarch64_phytium_pi = (
  omega arith,
  (
    omega arith,
    (
      omega arith,
      (
        omega arith,
        (
          omega arith,
          (
            omega arith,
            (
              omega arith,
              (
                omega arith,
                (
                  omega arith,
                  (
                    omega arith,
                    (
                      omega arith,
                      (
                        omega arith,
                        (
                          omega arith,
                          (
                            omega arith,
                            (
                              omega arith,
                              (omega arith, (omega arith, (omega arith, (omega arith, tt)))),
                            ),
                          ),
                        ),
                      ),
                    ),
                  ),
                ),
              ),
            ),
          ),
        ),
      ),
    ),
  ),
)
fixed_ranges-Fits aarch64_qemu_virt = (
  omega arith,
  (omega arith, (omega arith, (omega arith, (omega arith, (omega arith, (omega arith, tt)))))),
)
fixed_ranges-Fits aarch64_raspi = (omega arith, (omega arith, (omega arith, (omega arith, tt))))
fixed_ranges-Fits arm_qemu_virt = (
  omega arith,
  (omega arith, (omega arith, (omega arith, (omega arith, (omega arith, (omega arith, tt)))))),
)
fixed_ranges-Fits loongarch64_qemu_virt =
    (omega arith, (omega arith, (omega arith, (omega arith, (omega arith, (omega arith, tt))))))
fixed_ranges-Fits riscv64_qemu_virt = (
  omega arith,
  (omega arith, (omega arith, (omega arith, (omega arith, (omega arith, (omega arith, tt)))))),
)
fixed_ranges-Fits x86_pc =
    (omega arith, (omega arith, (omega arith, (omega arith, (omega arith, tt)))))

-- On every platform an address lies in at most one of the ranges of its RAM and its devices; on
-- x86-pc, of its devices.
fixed_ranges-apart : (p : Platform) (x : ℕ) → holders x (fixed_ranges p) ≤ 1
fixed_ranges-apart p x =
    let sorted : IsSorted 0 (by_start (fixed_ranges p)) =
      (check_sorted_ranges_overlap-ok (by_start (fixed_ranges p)) (fixed_ranges-Fits p)).0
        (fixed_ranges-ok p) in
    omega (
      arith,
      holders-by_start x (fixed_ranges p),
      holders-sorted x 0 (by_start (fixed_ranges p)) sorted,
    )

-- The range ends where the linear map does not wrap around yet.
abbrev pub IsReached : ℕ → RawRange → Type 0
IsReached bound (start, size) = start + size ≤ bound

holders-reached :
    (x bound : ℕ) (rs : List RawRange) → All (IsReached bound) rs → holders x rs ≢ 0 → x < bound
holders-reached x bound [] a h = absurd (h refl)
holders-reached x bound ((start, size) ∷ rs) (le, a) h =
    elim (Bool-cases (contains x (start, size))) [
      | inl e ↦ ground arith
      | inr e ↦ holders-reached x bound rs a (ground arith)
    ]

fixed_ranges-IsReached :
    (p : Platform) → All (IsReached (word p - phys_virt_offset p)) (fixed_ranges p)
fixed_ranges-IsReached aarch64_bsta1000b = (
  omega arith,
  (omega arith, (omega arith, (omega arith, (omega arith, (omega arith, (omega arith, tt)))))),
)
fixed_ranges-IsReached aarch64_phytium_pi = (
  omega arith,
  (
    omega arith,
    (
      omega arith,
      (
        omega arith,
        (
          omega arith,
          (
            omega arith,
            (
              omega arith,
              (
                omega arith,
                (
                  omega arith,
                  (
                    omega arith,
                    (
                      omega arith,
                      (
                        omega arith,
                        (
                          omega arith,
                          (
                            omega arith,
                            (
                              omega arith,
                              (omega arith, (omega arith, (omega arith, (omega arith, tt)))),
                            ),
                          ),
                        ),
                      ),
                    ),
                  ),
                ),
              ),
            ),
          ),
        ),
      ),
    ),
  ),
)
fixed_ranges-IsReached aarch64_qemu_virt = (
  omega arith,
  (omega arith, (omega arith, (omega arith, (omega arith, (omega arith, (omega arith, tt)))))),
)
fixed_ranges-IsReached aarch64_raspi =
    (omega arith, (omega arith, (omega arith, (omega arith, tt))))
fixed_ranges-IsReached arm_qemu_virt = (
  omega arith,
  (omega arith, (omega arith, (omega arith, (omega arith, (omega arith, (omega arith, tt)))))),
)
fixed_ranges-IsReached loongarch64_qemu_virt =
    (omega arith, (omega arith, (omega arith, (omega arith, (omega arith, (omega arith, tt))))))
fixed_ranges-IsReached riscv64_qemu_virt = (
  omega arith,
  (omega arith, (omega arith, (omega arith, (omega arith, (omega arith, (omega arith, tt)))))),
)
fixed_ranges-IsReached x86_pc =
    (omega arith, (omega arith, (omega arith, (omega arith, (omega arith, tt)))))

-- The RAM and the devices of a platform; `ram` is the RAM that the boot loader of x86-pc tells.
abbrev pub ranges : List RawRange → Platform → List RawRange
ranges ram p = (mem_if ram p).phys_ram_ranges ++ (mem_if ram p).mmio_ranges

All-append :
    (P : RawRange → Type 0) (xs ys : List RawRange) → All P xs → All P ys → All P (xs ++ ys)
All-append P [] ys h k = k
All-append P (x ∷ xs) ys h k = (h.0, All-append P xs ys h.1 k)

ranges-IsReached :
    (ram : List RawRange) (p : Platform)
    → All (IsReached (word x86_pc - phys_virt_offset x86_pc)) ram
    → All (IsReached (word p - phys_virt_offset p)) (ranges ram p)
ranges-IsReached ram aarch64_bsta1000b h = fixed_ranges-IsReached aarch64_bsta1000b
ranges-IsReached ram aarch64_phytium_pi h = fixed_ranges-IsReached aarch64_phytium_pi
ranges-IsReached ram aarch64_qemu_virt h = fixed_ranges-IsReached aarch64_qemu_virt
ranges-IsReached ram aarch64_raspi h = fixed_ranges-IsReached aarch64_raspi
ranges-IsReached ram arm_qemu_virt h = fixed_ranges-IsReached arm_qemu_virt
ranges-IsReached ram loongarch64_qemu_virt h = fixed_ranges-IsReached loongarch64_qemu_virt
ranges-IsReached ram riscv64_qemu_virt h = fixed_ranges-IsReached riscv64_qemu_virt
ranges-IsReached ram x86_pc h = All-append _ ram _ h (fixed_ranges-IsReached x86_pc)

-- The linear map adds the offset, without wrapping around, to every address in the ranges of the
-- RAM and the devices of a platform; `virt_to_phys` takes the sum back. The RAM of x86-pc is what
-- the boot loader tells, in ranges of which each ends at 2 ^ 47, the size of the map, or below.
pub ranges-linear :
    (ram : List RawRange) (p : Platform) (x : ℕ)
    → All (IsReached (word x86_pc - phys_virt_offset x86_pc)) ram
    → holders x (ranges ram p) ≢ 0
    → ((mem_if ram p).phys_to_virt x ≡ x + phys_virt_offset p)
      × ((mem_if ram p).virt_to_phys (x + phys_virt_offset p) ≡ x)
ranges-linear ram p x reached h =
    let below : x < word p - phys_virt_offset p =
      holders-reached x (word p - phys_virt_offset p) (ranges ram p)
        (ranges-IsReached ram p reached) h in
    let sum : (mem_if ram p).phys_to_virt x ≡ x + phys_virt_offset p =
      phys_to_virt-linear p ram x (omega arith) in
    (
      sum,
      ap (mem_if ram p).virt_to_phys (sym sum)
          ∙ (phys_to_virt-virt_to_phys p ram x (omega arith)).0,
    )
