-- ===== src/Kernels/Smp/Tests.antt =====
-- Three CPUs of examples/smp-kernel that take turns one after the other, with CPU 1 the primary one.
use axplat_crates.Prelude.{ℕ, ◌+◌, ◌-◌, ◌%◌, ◌≤◌, ◌≡◌, ◌≢◌, refl, true, [], ◌∷◌, arith}
use axplat_crates.Kernels.Smp.{secondary_init, off, shut_down, running, System, stack_top, state_at}
use axplat_crates.Kernels.Smp.Inv.{rank, launches}
use axplat_crates.Kernels.Smp.Barrier.{has_counted, state_at-barrier, state_at-boots}
use axplat_crates.Kernels.Smp.Fair.{IsFair, state_at-shut_down}

abbrev stack : ℕ → ℕ
stack = stack_top (λ a. a - 0xffff_0000_0000_0000) 0xffff_0000_4020_0000 0x4_0000

abbrev in_turn : ℕ → ℕ
in_turn t = t % 3

in_turn-IsFair : IsFair 3 in_turn
in_turn-IsFair t i lt = ((i + 3 - t % 3) % 3, omega arith)

abbrev at : ℕ → System
at = state_at 3 stack 1 in_turn

boots_30 : (at 30).boots ≡ (0, 0x4024_0000) ∷ (2, 0x4028_0000) ∷ []
unfolding state_at
boots_30 = refl

cpu_2_runs : (at 30).pc 2 ≡ running
unfolding state_at
cpu_2_runs = refl

down_40 : (at 40).pc 1 ≡ shut_down
unfolding state_at
down_40 = refl

state_at-barrier_example : ((at 30).inited_cpus ≡ 3) × (has_counted ((at 30).pc 0) ≡ true)
unfolding state_at
state_at-barrier_example =
    state_at-barrier 3 stack 1 in_turn (omega arith) (omega arith) 30 2 0 (omega arith) refl
      (omega arith)

state_at-boots_example :
    (k : ℕ) × (k ≤ 2)
    × ((at 7).boots ≡ launches 3 stack 1 k)
    × (◌≢◌ {A = ℕ} 2 1 → k ≤ rank 1 2 → (at 7).pc 2 ≡ off)
    × ((at 7).pc 2 ≡ secondary_init → (at 7).pc 0 ≡ secondary_init → ◌≡◌ {A = ℕ} 2 0)
state_at-boots_example = state_at-boots 3 stack 1 in_turn (omega arith) (omega arith) 7 2 0

state_at-shut_down_example : (t : ℕ) × ((at t).pc 1 ≡ shut_down)
state_at-shut_down_example =
    state_at-shut_down 3 stack 1 in_turn (omega arith) (omega arith) in_turn-IsFair
