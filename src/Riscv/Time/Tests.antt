-- ===== src/Riscv/Time/Tests.antt =====
-- The theorems on the clock of platforms/axplat-riscv64-qemu-virt at its default configuration.
use axplat_crates.Prelude.{◌≡◌, refl, true, [], ◌∷◌, returns}
use axplat_crates.Riscv.Time.{Config, TimeState, set_oneshot_timer}

abbrev config : Config
config = record { timer_frequency = 10_000_000; rtc_paddr = 0x10_1000; rtc = true; irq = true }

abbrev fresh : TimeState
fresh = record { rtc_epochoffset_nanos = 0; set_timer = [] }

-- 100 ns to a tick
timer_runs :
    set_oneshot_timer config 1_000_050 fresh ≡ returns (record fresh { set_timer = 10_000 ∷ [] })
unfolding set_oneshot_timer
timer_runs = refl
