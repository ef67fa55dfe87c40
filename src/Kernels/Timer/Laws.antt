-- ===== src/Kernels/Timer/Laws.antt =====
-- The deadlines that the timers of the example kernels are given.
use axplat_crates.Prelude.{
  ℕ, refl, zero, suc, ◌+◌, ◌*◌, ◌^◌, ◌≤◌, ◌<◌, ◌≡◌, ◌≢◌, ◌⊎◌, inl, inr, Bool-cases, ap, ◌∙◌,
  returns, List, [], ◌∷◌, ◌++◌, leb, arith,
}
use axplat_crates.Time.{nanos_per_sec}
use axplat_crates.Kernels.Timer.{
  test_seconds, interval_nanos, smp_interval_nanos, TimerState, deadline_from, update_timer, after,
  test_irq, SmpTimers, smp_update_timer,
}

-- The multiples of the interval after the first interrupt.
abbrev pub periods : (start : ℕ) → ℕ → List ℕ
periods start zero = []
periods start (suc k) = periods start k ++ (start + suc k * interval_nanos) ∷ []

abbrev pub last_deadline : List ℕ → ℕ
last_deadline [] = 0
last_deadline (d ∷ []) = d
last_deadline (_ ∷ d ∷ ds) = last_deadline (d ∷ ds)

last_deadline-append : (ds : List ℕ) (d : ℕ) → last_deadline (ds ++ d ∷ []) ≡ d
last_deadline-append [] d = refl
last_deadline-append (c ∷ []) d = refl
last_deadline-append (c ∷ b ∷ ds) d = last_deadline-append (b ∷ ds) d

-- Each of the `k` interrupts after the first is handled at most `late` after the deadline that the
-- interrupt before it has set.
abbrev pub IsPrompt : (nows : ℕ → ℕ) (late k : ℕ) → Type 0
IsPrompt nows late k =
    (i : ℕ) → i < k → nows (suc i) ≤ last_deadline (after nows (suc i)).armed + late

abbrev running : (start k : ℕ) → TimerState
running start k = record {
  irq_counter = suc k;
  next_deadline = start + (k + 2) * interval_nanos;
  armed = periods start (suc k);
}

-- A prompt interrupt takes the next multiple of the interval.
update_timer-prompt :
    (start now k : ℕ)
    → start + (k + 3) * interval_nanos < 2 ^ 64
    → now < start + (k + 2) * interval_nanos
    → update_timer now (running start k) ≡ running start (suc k)
unfolding update_timer
update_timer-prompt start now k fits prompt = ground arith

module _ (nows : ℕ → ℕ) (late : ℕ) (short : late < interval_nanos) where
  due :
      (k : ℕ)
      → after nows (suc k) ≡ running (nows 0) k
      → last_deadline (after nows (suc k)).armed ≡ nows 0 + suc k * interval_nanos
  due k e =
      ap (λ s. last_deadline s.armed) e
      ∙ last_deadline-append (periods (nows 0) k) (nows 0 + suc k * interval_nanos)

  after-periodic :
      (k : ℕ)
      → nows 0 + (k + 2) * interval_nanos < 2 ^ 64
      → IsPrompt nows late k
      → after nows (suc k) ≡ running (nows 0) k
  unfolding after update_timer
  after-periodic zero fits prompt = ground arith
  after-periodic (suc k) fits prompt =
      let rec = after-periodic k (omega arith) (λ i lt. prompt i (omega arith)) in
      let soon : nows (suc k) < nows 0 + (k + 2) * interval_nanos =
        omega (arith, prompt k (omega arith), due k rec) in
      ap (update_timer (nows (suc k))) rec
      ∙ update_timer-prompt (nows 0) (nows (suc k)) k (omega arith) soon

  on_time :
      (k : ℕ)
      → nows 0 + (k + 2) * interval_nanos < 2 ^ 64
      → ((i : ℕ) → i < k → nows (suc i) ≤ nows 0 + suc i * interval_nanos + late)
      → after nows (suc k) ≡ running (nows 0) k
  unfolding after update_timer
  on_time zero fits times = ground arith
  on_time (suc k) fits times =
      ap (update_timer (nows (suc k))) (on_time k (omega arith) (λ i lt. times i (omega arith)))
      ∙ update_timer-prompt (nows 0) (nows (suc k)) k (omega arith)
          (omega (arith, times k (omega arith)))

  -- Interrupts at these times are prompt.
  pub times-IsPrompt :
      (k : ℕ)
      → nows 0 + (k + 2) * interval_nanos < 2 ^ 64
      → ((i : ℕ) → i < k → nows (suc i) ≤ nows 0 + suc i * interval_nanos + late)
      → IsPrompt nows late k
  times-IsPrompt k fits times i lt =
      omega (arith, times i lt, due i (on_time i (omega arith) (λ j below. times j (omega arith))))

  -- Where every interrupt after the first is handled at most `late` after the deadline that the one
  -- before it has set, less than an interval, and the times fit a `u64`, the first `k + 1` interrupts
  -- are counted, and they set the deadlines to the first `k + 1` multiples of the interval after the
  -- first interrupt: no delay is carried over.
  pub after-deadlines :
      (k : ℕ)
      → nows 0 + (k + 2) * interval_nanos < 2 ^ 64
      → IsPrompt nows late k
      → ((after nows (suc k)).irq_counter ≡ suc k)
        × ((after nows (suc k)).armed ≡ periods (nows 0) (suc k))
  after-deadlines k fits prompt =
      let e = after-periodic k fits prompt in (ap (λ s. s.irq_counter) e, ap (λ s. s.armed) e)

  counted :
      (m : ℕ)
      → 0 < m
      → nows 0 + (m + 1) * interval_nanos < 2 ^ 64
      → IsPrompt nows late m
      → (after nows m).irq_counter ≡ m
  counted zero pos fits prompt = absurd (omega arith)
  counted (suc k) pos fits prompt =
      ap (λ s. s.irq_counter) (after-periodic k (omega arith) (λ i lt. prompt i (omega arith)))

  -- Where every interrupt after the first is handled at most `late` after the deadline that the one
  -- before it has set, less than an interval, and the first one comes so early that `late` after it
  -- the test is not an interval old, the test passes: it starts at `start` and ends at `stop`, five
  -- seconds later or more, and the `m` interrupts that have been handled by then, at times that fit
  -- a `u64`, are enough.
  pub test_irq-after :
      (start stop m : ℕ)
      → IsPrompt nows late (m + 500)
      → nows 0 + late ≤ start + interval_nanos
      → start + test_seconds * nanos_per_sec ≤ stop
      → ((i : ℕ) → nows i ≤ stop → i < m)
      → nows 0 + (m + 501) * interval_nanos < 2 ^ 64
      → test_irq (after nows m).irq_counter ≡ returns tt
  unfolding test_irq
  test_irq-after start stop m prompt early long all fits =
      let before = due 498 (after-periodic 498 (omega arith) (λ i lt. prompt i (omega arith))) in
      let last : nows 499 ≤ nows 0 + 499 * interval_nanos + late =
        omega (arith, prompt 498 (omega arith), before) in
      let enough : 499 < m = all 499 (omega arith) in
      rw (counted m (omega arith) (omega arith) (λ i lt. prompt i (omega arith))) (ground arith)

module _ (cpu now_ns : ℕ) (s : SmpTimers) where
  abbrev next : SmpTimers
  next = smp_update_timer cpu now_ns s

  -- As long as the times fit a `u64`, the timer of a CPU is set to a deadline ahead: the one that was
  -- due next, unless it has passed, and else an interval from now. The one due next is an interval
  -- after that. The deadlines and the timers of other CPUs are left as they were.
  smp_update_timer-ahead :
      (other : ℕ)
      → now_ns + 2 * smp_interval_nanos < 2 ^ 64
      → s.next_deadline cpu + smp_interval_nanos < 2 ^ 64
      → (d : ℕ) × (next.armed cpu ≡ s.armed cpu ++ d ∷ [])
        × (now_ns < d)
        × ((d ≡ s.next_deadline cpu)
            ⊎ ((s.next_deadline cpu ≤ now_ns) × (d ≡ now_ns + smp_interval_nanos)))
        × (next.next_deadline cpu ≡ d + smp_interval_nanos)
        × (other ≢ cpu
            → (next.next_deadline other ≡ s.next_deadline other)
              × (next.armed other ≡ s.armed other))
  unfolding smp_update_timer
  smp_update_timer-ahead other fits fits' = (
    deadline_from smp_interval_nanos now_ns (s.next_deadline cpu),
    ground arith,
    ground arith,
    elim (Bool-cases (leb (s.next_deadline cpu) now_ns)) [
      | inl late ↦ inr (ground arith, rw late (omega arith))
      | inr early ↦ inl (rw early)
    ],
    ground arith,
    λ h. (ground arith, ground arith),
  )
