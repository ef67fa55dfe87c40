-- ===== src/Platform/Boot/Maps.antt =====
-- What the boot tables of the platforms with two levels map.
use axplat_crates.Prelude.{
  ℕ, ◌+◌, ◌*◌, ◌/◌, ◌%◌, ◌^◌, ◌<◌, ◌≡◌, refl, ap, ◌∙◌, Option, none, some, ◌==◌, if◌then◌else◌,
  arith, eq→==,
}
use axplat_crates.Platform.Boot.{
  Attributes, device_memory, normal_memory, Block, BootTables, empty, qemu_virt_boot, raspi_boot,
  bsta1000b_boot, phytium_pi_boot, loongarch_boot, in_block, next_table, translate,
}

pub data Booting : Type 0 where
  qemu_virt : Booting
  raspi : Booting
  bsta1000b : Booting
  phytium_pi : Booting
  loongarch : Booting

abbrev pub boot : Booting → ℕ → BootTables → BootTables
boot qemu_virt = qemu_virt_boot
boot raspi = raspi_boot
boot bsta1000b = bsta1000b_boot
boot phytium_pi = phytium_pi_boot
boot loongarch = loongarch_boot

-- The memory in a gigabyte, where it is mapped.
abbrev pub gigabyte : Booting → ℕ → Option Attributes
gigabyte qemu_virt n =
    if n == 0 then some device_memory else if n == 1 then some normal_memory else none
gigabyte raspi n =
    if n == 3
    then some device_memory
    else if n == 2
    then some normal_memory
    else if n == 1
    then some normal_memory
    else if n == 0
    then some normal_memory
    else none
gigabyte bsta1000b n =
    if n == 2
    then some normal_memory
    else if n == 1
    then some device_memory
    else if n == 0
    then some device_memory
    else none
gigabyte phytium_pi n =
    if n == 2 then some normal_memory else if n == 0 then some device_memory else none
gigabyte loongarch n =
    if n == 2 then some normal_memory else if n == 0 then some device_memory else none

abbrev pub at : ℕ → Option Attributes → Option (ℕ × Attributes)
at pa none = none
at pa (some attributes) = some (pa, attributes)

l0-boot : (b : Booting) (l1_paddr : ℕ) → (boot b l1_paddr empty).l0 0 ≡ some l1_paddr
unfolding qemu_virt_boot raspi_boot bsta1000b_boot phytium_pi_boot loongarch_boot
l0-boot qemu_virt l1 = refl
l0-boot raspi l1 = refl
l0-boot bsta1000b l1 = refl
l0-boot phytium_pi l1 = refl
l0-boot loongarch l1 = refl

abbrev block : ℕ → Option Attributes → Option Block
block n none = none
block n (some a) = some (record { paddr = n * 2 ^ 30; attributes = a })

l1-boot : (b : Booting) (l1_paddr n : ℕ) → (boot b l1_paddr empty).l1 n ≡ block n (gigabyte b n)
unfolding qemu_virt_boot raspi_boot bsta1000b_boot phytium_pi_boot loongarch_boot
l1-boot qemu_virt l1 n = ground arith
l1-boot raspi l1 n = ground arith
l1-boot bsta1000b l1 n = ground arith
l1-boot phytium_pi l1 n = ground arith
l1-boot loongarch l1 n = ground arith

in_block-block :
    (va pa n : ℕ) (a : Option Attributes)
    → n ≡ pa / 2 ^ 30
    → va % 2 ^ 30 ≡ pa % 2 ^ 30
    → in_block va (block n a) ≡ at pa a
in_block-block va pa n none e r = refl
in_block-block va pa n (some a) e r =
    let sum : n * 2 ^ 30 + va % 2 ^ 30 ≡ pa = omega arith in ap (λ (x : ℕ). some (x, a)) sum

translate-boot :
    (b : Booting) (l1_paddr va pa : ℕ)
    → va / 2 ^ 39 % 512 ≡ 0
    → va / 2 ^ 30 % 512 ≡ pa / 2 ^ 30
    → va % 2 ^ 30 ≡ pa % 2 ^ 30
    → translate l1_paddr (boot b l1_paddr empty) va ≡ at pa (gigabyte b (pa / 2 ^ 30))
translate-boot b l1 va pa top index rest =
    let t : BootTables = boot b l1 empty in
    ap (λ i. next_table l1 va t (t.l0 i)) top
    ∙ ap (next_table l1 va t) (l0-boot b l1)
    ∙ ap (λ c. if c then in_block va (t.l1 (va / 2 ^ 30 % 512)) else none) (eq→== l1 l1 refl)
    ∙ ap (λ n. in_block va (t.l1 n)) index
    ∙ ap (in_block va) (l1-boot b l1 (pa / 2 ^ 30))
    ∙ in_block-block va pa (pa / 2 ^ 30) (gigabyte b (pa / 2 ^ 30)) refl rest

-- Once `init_boot_page_table` has filled the empty tables, an address below 2 ^ 39 is mapped to
-- itself, and its image under the linear map, 0xffff_0000_0000_0000 above it, to the same address:
-- both in exactly the gigabytes that `gigabyte` gives, with its attributes, and in no other.
pub init_boot_page_table-maps :
    (b : Booting) (l1_paddr pa : ℕ)
    → pa < 2 ^ 39
    → (translate l1_paddr (boot b l1_paddr empty) pa ≡ at pa (gigabyte b (pa / 2 ^ 30)))
      × (translate l1_paddr (boot b l1_paddr empty) (pa + 0xffff_0000_0000_0000)
          ≡ at pa (gigabyte b (pa / 2 ^ 30)))
init_boot_page_table-maps b l1 pa h = (
  translate-boot b l1 pa pa (omega arith) (omega arith) refl,
  translate-boot b l1 (pa + 0xffff_0000_0000_0000) pa (omega arith) (omega arith) (omega arith),
)
