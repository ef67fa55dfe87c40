-- ===== src/Boards/Start.antt =====
-- The start of the other CPUs on platforms/axplat-aarch64-raspi/src/mp.rs, by a table of addresses at
-- which they spin, and on platforms/axplat-aarch64-phytium-pi/src and
-- platforms/axplat-aarch64-bsta1000b/src/mp.rs, by PSCI. A missing index of an array panics.
pub mod Laws
mod Tests
use axplat_crates.Prelude.{
  ℕ, suc, ◌+◌, Bool, Option, none, some, List, [], ◌∷◌, length, get_elem?, leb, ◌==◌, if◌then◌else◌,
  Exec, returns, panics, ◌>>=◌,
}
use axplat_crates.Arm.Psci.{Firmware, cpu_on}

-- The stores and the instructions of the Raspberry Pi, in order. `phys_virt_offset` is added to the
-- address of the spin table's entry.
pub data Event : Type 0 where
  store_stack_top : ℕ → Event
  flush_stack_top : Event
  store_release : (vaddr entry : ℕ) → Event
  flush_release : (vaddr : ℕ) → Event
  sev : Event

abbrev pub cpu_spin_table : List ℕ
cpu_spin_table = 0xd8 ∷ 0xe0 ∷ 0xe8 ∷ 0xf0 ∷ []

-- `entry_paddr` is the address of `modify_stack_and_start`.
pub raspi_start_secondary_cpu :
    (phys_to_virt : ℕ → ℕ) (entry_paddr cpu_id stack_top : ℕ) → Exec (List Event)
raspi_start_secondary_cpu phys_to_virt entry_paddr cpu_id stack_top =
    elim (get_elem? cpu_spin_table cpu_id) [
      | none ↦ panics
      | some slot ↦
          (let spintable_vaddr = phys_to_virt slot in
            returns (
              store_stack_top stack_top
              ∷ flush_stack_top
              ∷ store_release spintable_vaddr entry_paddr
              ∷ flush_release spintable_vaddr
              ∷ sev
              ∷ []))
    ]

abbrev pub phytium_cpu_id_list : List ℕ
phytium_cpu_id_list = 0x200 ∷ 0x201 ∷ 0x00 ∷ 0x100 ∷ []

abbrev pub bsta_cpu_id_list : List ℕ
bsta_cpu_id_list = 0x00 ∷ 0x100 ∷ 0x200 ∷ 0x300 ∷ 0x400 ∷ 0x500 ∷ 0x600 ∷ 0x700 ∷ []

-- `iter().position(|&x| x == hard_id)`, from `i` on.
abbrev pub position : ℕ → ℕ → List ℕ → Option ℕ
position hard_id i [] = none
position hard_id i (x ∷ xs) = if x == hard_id then some i else position hard_id (i + 1) xs

abbrev pub unwrap : {A : Type 0} → Option A → Exec A
unwrap none = panics
unwrap (some a) = returns a

pub hart_to_logid : ℕ → Exec ℕ
hart_to_logid hard_id = unwrap (position hard_id 0 phytium_cpu_id_list)

module _ (firmware : Firmware) (psci_method_hvc : Bool) where
  open firmware use {World}

  -- `entry` is the address of `_start_secondary`.
  pub phytium_cpu_boot : (entry cpu_id stack_top_paddr : ℕ) → World → Exec World
  phytium_cpu_boot entry cpu_id stack_top_paddr w = do
    hard_id ← unwrap (get_elem? phytium_cpu_id_list cpu_id)
    cpu_on firmware psci_method_hvc Bool.true hard_id entry stack_top_paddr w

  -- A number past the list is only logged.
  pub bsta_start_secondary_cpu : (entry cpu_id stack_top : ℕ) → World → Exec World
  bsta_start_secondary_cpu entry cpu_id stack_top w =
      let boot = unwrap (get_elem? bsta_cpu_id_list cpu_id) >>= λ hard_id.
      cpu_on firmware psci_method_hvc Bool.true hard_id entry stack_top w in
      if leb (length bsta_cpu_id_list) cpu_id then returns w else boot
