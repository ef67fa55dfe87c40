-- ===== src/Boards/Start/Tests.antt =====
-- The theorems on the start of CPUs at concrete inputs.
use axplat_crates.Prelude.{ℕ, ◌+◌, ◌≡◌, true, [], ◌∷◌, arith, returns}
use axplat_crates.Arm.Psci.{Firmware, cpu_on}
use axplat_crates.Boards.Start.{
  store_stack_top, flush_stack_top, store_release, flush_release, sev, raspi_start_secondary_cpu,
  hart_to_logid, phytium_cpu_boot,
}
use axplat_crates.Boards.Start.Laws.{phytium_cpu_boot-hart_to_logid, raspi_start_secondary_cpu_lem}

-- It remembers the CPU that was turned on last.
abbrev firmware : Firmware
firmware = record {
  World = ℕ;
  psci_hvc_call = λ f a b c w. (0, a);
  arm_smccc_smc = λ f a b c w. (0, a);
}

phytium_cpu_boot-hart_to_logid_example :
    (hard_id : ℕ) × (phytium_cpu_boot firmware true 0x9000_1000 3 0x9010_0000 0
      ≡ cpu_on firmware true true hard_id 0x9000_1000 0x9010_0000 0)
    × (hart_to_logid hard_id ≡ returns 3)
phytium_cpu_boot-hart_to_logid_example =
    phytium_cpu_boot-hart_to_logid firmware true 0x9000_1000 3 0x9010_0000 0 (omega arith)

raspi_start_secondary_cpu_lem_example :
    raspi_start_secondary_cpu (λ a. a + 0xffff_0000_0000_0000) 0x8_1000 1 0x20_0000
    ≡ returns (
        store_stack_top 0x20_0000
        ∷ flush_stack_top
        ∷ store_release 0xffff_0000_0000_00e0 0x8_1000
        ∷ flush_release 0xffff_0000_0000_00e0
        ∷ sev
        ∷ [])
raspi_start_secondary_cpu_lem_example =
    raspi_start_secondary_cpu_lem (λ a. a + 0xffff_0000_0000_0000) 0x8_1000 1 0x20_0000
      (omega arith)
