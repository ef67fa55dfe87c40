-- ===== src/Platform/Boot/Sv39.antt =====
-- The boot table of platforms/axplat-riscv64-qemu-virt/src/boot.rs: 512 words of the Sv39 format.
use Prim.Native.Nat.{bit_or}
use axplat_crates.Prelude.{
  ℕ, ◌+◌, ◌*◌, ◌/◌, ◌%◌, ◌^◌, ◌<◌, ◌≡◌, refl, ap, ◌∙◌, Option, none, some, ◌||◌, ◌==◌,
  if◌then◌else◌, arith,
}

abbrev pub store : ℕ → ℕ → (ℕ → ℕ) → (ℕ → ℕ)
store i v t j = if j == i then v else t j

pub init_boot_page_table : (ℕ → ℕ) → (ℕ → ℕ)
init_boot_page_table t = store 0x102 (bit_or (0x80000 * 2 ^ 10) 0xef) (
    store 0x100 (bit_or (0 * 2 ^ 10) 0xef)
      (store 2 (bit_or (0x80000 * 2 ^ 10) 0xef) (store 0 (bit_or (0 * 2 ^ 10) 0xef) t)))

-- A valid leaf of the first level: bit 0 is set, and from bit 10 on stands the page's number.
abbrev leaf : ℕ → ℕ → Option ℕ
leaf va entry = if entry % 2 == 1 then some (entry / 2 ^ 10 * 2 ^ 12 + va % 2 ^ 30) else none

abbrev pub translate_sv39 : (ℕ → ℕ) → ℕ → Option ℕ
translate_sv39 t va = leaf va (t (va / 2 ^ 30 % 512))

abbrev pub zeros : ℕ → ℕ
zeros j = 0

-- The entry of a gigabyte, in both halves of the table.
low :
    (n : ℕ)
    → n < 256
    → init_boot_page_table zeros n ≡ (if n == 0 then 0xef else if n == 2 then 0x2000_00ef else 0)
unfolding init_boot_page_table
low n h = ground arith

high :
    (n : ℕ)
    → n < 256
    → init_boot_page_table zeros (n + 0x100)
      ≡ (if n == 0 then 0xef else if n == 2 then 0x2000_00ef else 0)
unfolding init_boot_page_table
high n h = ground arith

mapped :
    (va pa : ℕ)
    → va % 2 ^ 30 ≡ pa % 2 ^ 30
    → leaf va (if pa / 2 ^ 30 == 0 then 0xef else if pa / 2 ^ 30 == 2 then 0x2000_00ef else 0)
      ≡ (if pa / 2 ^ 30 == 0 || pa / 2 ^ 30 == 2 then some pa else none)
mapped va pa r = ground arith

-- Once `init_boot_page_table` has filled a table of zeros, an address below 2 ^ 38 is mapped to
-- itself, and its image under the linear map, 0xffff_ffc0_0000_0000 above it, to the same address:
-- both in the first and the third gigabyte, and in no other.
pub init_boot_page_table-sv39 :
    (pa : ℕ)
    → pa < 2 ^ 38
    → (translate_sv39 (init_boot_page_table zeros) pa
        ≡ (if pa / 2 ^ 30 == 0 || pa / 2 ^ 30 == 2 then some pa else none))
      × (translate_sv39 (init_boot_page_table zeros) (pa + 0xffff_ffc0_0000_0000)
          ≡ (if pa / 2 ^ 30 == 0 || pa / 2 ^ 30 == 2 then some pa else none))
init_boot_page_table-sv39 pa h =
    let va : ℕ = pa + 0xffff_ffc0_0000_0000 in
    let i : pa / 2 ^ 30 % 512 ≡ pa / 2 ^ 30 = omega arith in
    let j : va / 2 ^ 30 % 512 ≡ pa / 2 ^ 30 + 0x100 = omega arith in
    (
      ap (λ n. leaf pa (init_boot_page_table zeros n)) i
          ∙ ap (leaf pa) (low (pa / 2 ^ 30) (omega arith))
          ∙ mapped pa pa refl,
      ap (λ n. leaf va (init_boot_page_table zeros n)) j
          ∙ ap (leaf va) (high (pa / 2 ^ 30) (omega arith))
          ∙ mapped va pa (omega arith),
    )
