-- ===== src/Kernels/Timer/Tests.antt =====
-- The timer of examples/irq-kernel with interrupts that come on time, the second one late, and the
-- timer of CPU 1 of examples/smp-kernel.
use axplat_crates.Prelude.{ℕ, ◌+◌, ◌*◌, ◌≡◌, refl, returns, [], ◌∷◌, ◌==◌, if◌then◌else◌, arith}
use axplat_crates.Kernels.Timer.{update_timer, after, test_irq}
use axplat_crates.Kernels.Timer.Laws.{periods, times-IsPrompt, after-deadlines, test_irq-after}

abbrev nows : ℕ → ℕ
nows i = i * 10_000_000 + 7

abbrev late_once : ℕ → ℕ
late_once i = if i == 1 then 19_000_000 else nows i

late_deadlines : (after late_once 3).armed ≡ 10_000_007 ∷ 20_000_007 ∷ 30_000_007 ∷ []
unfolding after
late_deadlines = refl

missed :
    (update_timer 90 (record { irq_counter = 4; next_deadline = 80; armed = [] })).armed
    ≡ 10_000_090 ∷ []
unfolding update_timer
missed = refl

after-deadlines_example :
    ((after late_once 3).irq_counter ≡ 3) × ((after late_once 3).armed ≡ periods (late_once 0) 3)
after-deadlines_example =
    after-deadlines late_once 9_000_000 (omega arith) 2 (omega arith)
      (times-IsPrompt late_once 9_000_000 (omega arith) 2 (omega arith) (λ i lt. ground arith))

test_irq-after_example : test_irq (after nows 501).irq_counter ≡ returns tt
test_irq-after_example =
    test_irq-after nows 0 (omega arith) 7 5_000_000_007 501
      (times-IsPrompt nows 0 (omega arith) 1_001 (omega arith) (λ i lt. omega arith)) (omega arith)
      (omega arith) (λ i h. omega arith) (omega arith)
