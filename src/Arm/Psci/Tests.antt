-- ===== src/Arm/Psci/Tests.antt =====
-- The power calls of platforms/axplat-arm-peripherals on firmware that counts.
use axplat_crates.Prelude.{ℕ, ◌+◌, ◌≡◌, refl, true, ◌-◌, ◌^◌, returns, ◌>>=◌}
use axplat_crates.Arm.Psci.{Firmware, hvc_text, smc_text, init, cpu_on}

-- It denies by `hvc`, finds the CPU on by `smc`, and counts the calls of each.
abbrev firmware : Firmware
firmware = record {
  World = ℕ × ℕ;
  psci_hvc_call = λ f a b c w. (2 ^ 64 - 3, (w.0 + 1, w.1));
  arm_smccc_smc = λ f a b c w. (2 ^ 64 - 4, (w.0, w.1 + 1));
}

cpu_on_run :
    ((init hvc_text >>= λ hvc. cpu_on firmware hvc true 1 0x4008_0000 7 (0, 0)) ≡ returns (1, 0))
    × ((init smc_text >>= λ hvc. cpu_on firmware hvc true 1 0x4008_0000 7 (0, 0)) ≡ returns (0, 1))
unfolding cpu_on init
cpu_on_run = (refl, refl)
