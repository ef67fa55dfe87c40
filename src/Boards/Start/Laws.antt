-- ===== src/Boards/Start/Laws.antt =====
-- Which CPU the boards start.
use axplat_crates.Prelude.{
  ℕ, zero, suc, ◌+◌, ◌*◌, ◌<◌, ◌≡◌, refl, Bool, true, [], ◌∷◌, arith, returns,
}
use axplat_crates.Arm.Psci.{Firmware, cpu_on}
use axplat_crates.Boards.Start.{
  store_stack_top, flush_stack_top, store_release, flush_release, sev, raspi_start_secondary_cpu,
  hart_to_logid, phytium_cpu_boot,
}

module _ (firmware : Firmware) (hvc : Bool) where
  open firmware use {World}

  -- For each of the four CPUs, `cpu_boot` of phytium-pi turns on the CPU of some hardware number, and
  -- `hart_to_logid`, with which that CPU finds its own number at its start, gives the number that
  -- was asked for.
  pub phytium_cpu_boot-hart_to_logid :
      (entry cpu_id stack_top : ℕ) (w : World)
      → cpu_id < 4
      → (hard_id : ℕ) × (phytium_cpu_boot firmware hvc entry cpu_id stack_top w
          ≡ cpu_on firmware hvc true hard_id entry stack_top w)
        × (hart_to_logid hard_id ≡ returns cpu_id)
  unfolding phytium_cpu_boot hart_to_logid
  phytium_cpu_boot-hart_to_logid entry zero stack_top w h = (0x200, refl, refl)
  phytium_cpu_boot-hart_to_logid entry (suc zero) stack_top w h = (0x201, refl, refl)
  phytium_cpu_boot-hart_to_logid entry (suc (suc zero)) stack_top w h = (0x00, refl, refl)
  phytium_cpu_boot-hart_to_logid entry (suc (suc (suc zero))) stack_top w h = (0x100, refl, refl)
  phytium_cpu_boot-hart_to_logid entry (suc (suc (suc (suc n)))) stack_top w h =
      absurd (omega arith)

-- For each of the four CPUs, the Raspberry Pi stores the stack first, then releases the CPU at an
-- address of its own, 8 bytes from the next one, and signals last.
pub raspi_start_secondary_cpu_lem :
    (phys_to_virt : ℕ → ℕ) (entry_paddr cpu_id stack_top : ℕ)
    → cpu_id < 4
    → raspi_start_secondary_cpu phys_to_virt entry_paddr cpu_id stack_top ≡ (
        let slot = phys_to_virt (0xd8 + 8 * cpu_id) in
        returns (
          store_stack_top stack_top
          ∷ flush_stack_top
          ∷ store_release slot entry_paddr
          ∷ flush_release slot
          ∷ sev
          ∷ []))
unfolding raspi_start_secondary_cpu
raspi_start_secondary_cpu_lem phys_to_virt entry_paddr zero stack_top h = refl
raspi_start_secondary_cpu_lem phys_to_virt entry_paddr (suc zero) stack_top h = refl
raspi_start_secondary_cpu_lem phys_to_virt entry_paddr (suc (suc zero)) stack_top h = refl
raspi_start_secondary_cpu_lem phys_to_virt entry_paddr (suc (suc (suc zero))) stack_top h = refl
raspi_start_secondary_cpu_lem phys_to_virt entry_paddr (suc (suc (suc (suc n)))) stack_top h =
    absurd (omega arith)
