-- ===== src/Loongarch/Irq/Ipi.antt =====
-- The loop of `handle_ipi` in platforms/axplat-loongarch64-qemu-virt/src/irq.rs.
use Prim.Native.Nat.{bit_and}
use native.Mathlib.Nat.{pow-suc, pow-succ', div-div-eq-div-mul}
use axplat_crates.Prelude.{
  ℕ, zero, suc, ◌+◌, ◌-◌, ◌/◌, ◌%◌, ◌^◌, ◌≤◌, ◌<◌, ◌≡◌, ◌≢◌, refl, sym, ap, ◌∙◌, Option, none, some,
  List, [], ◌∷◌, ◌++◌, ◌==◌, if◌then◌else◌, arith, Bool-cases, inl, inr, ==→eq, append_assoc,
  append-nil, false, ℕ_discrete, u32_mod, u32_max,
}
use axplat_crates.Prelude.Bits.{bit_and-gap}
use axplat_crates.Irq.{HandlerTable}
use axplat_crates.Loongarch.Irq.{
  max_irq_count, ipi_irq, zeros_from, trailing_zeros, Event, ran, ipi_clear, IrqState, emit,
  run_handler, ipi_loop, handle_ipi, handle,
}

-- The number of ones among `n` bits.
unfoldable pub count_ones : ℕ → ℕ → ℕ
count_ones zero x = 0
count_ones (suc n) x = x % 2 + count_ones n (x / 2)

count_ones-le : (n x : ℕ) → count_ones n x ≤ n
unfolding count_ones
count_ones-le zero x = omega arith
count_ones-le (suc n) x = omega (arith, count_ones-le n (x / 2))

count_ones-zero : (n : ℕ) → count_ones n 0 ≡ 0
unfolding count_ones
count_ones-zero zero = refl
count_ones-zero (suc n) = omega (arith, count_ones-zero n)

count_ones-even :
    (n t x : ℕ)
    → x % 2 ≡ 0
    → 2 ^ t ≤ x / 2
    → count_ones n (x / 2 - 2 ^ t) + 1 ≡ count_ones n (x / 2)
    → count_ones (suc n) (x - 2 ^ suc t) + 1 ≡ count_ones (suc n) x
unfolding count_ones
count_ones-even n t x even le h =
    let half : (x - 2 ^ suc t) / 2 ≡ x / 2 - 2 ^ t = omega (arith, pow-suc 2 t) in
    rw half (omega (arith, pow-suc 2 t))

count_ones-odd : (n x : ℕ) → x % 2 ≡ 1 → count_ones (suc n) (x - 1) + 1 ≡ count_ones (suc n) x
unfolding count_ones
count_ones-odd n x odd = let half : (x - 1) / 2 ≡ x / 2 = omega arith in rw half (omega arith)

-- The bit that `trailing_zeros` finds is set, and one of the ones.
lowest_one :
    (n x : ℕ)
    → x < 2 ^ n
    → x ≢ 0
    → (zeros_from n x < n)
      × (x / 2 ^ zeros_from n x % 2 ≡ 1)
      × (2 ^ zeros_from n x ≤ x)
      × (count_ones n (x - 2 ^ zeros_from n x) + 1 ≡ count_ones n x)
unfolding zeros_from
lowest_one zero x l nz = absurd (omega arith)
lowest_one (suc n) x l nz = elim (Bool-cases (x % 2 == 0)) [
  | inl e ↦
      let even : x % 2 ≡ 0 = ==→eq (x % 2) 0 e in
      let (a, b, c, d) = lowest_one n (x / 2) (omega (arith, pow-suc 2 n)) (omega arith) in
      let t : ℕ = zeros_from n (x / 2) in
      let shift : x / 2 ^ suc t ≡ x / 2 / 2 ^ t =
        rw (div-div-eq-div-mul x 2 (2 ^ t), pow-succ' 2 t) in
      rw e (
        omega arith,
        ap (λ (m : ℕ). m % 2) shift ∙ b,
        omega (arith, pow-suc 2 t),
        count_ones-even n t x even c d,
      )
  | inr e ↦
      let odd : x % 2 ≡ 1 = ground arith in
      rw e (omega arith, omega arith, omega arith, count_ones-odd n x odd)
]

-- The events of one handler's run, a number of times.
abbrev pub runs : {Handler : Type 0} → Option Handler → List (Event Handler)
runs none = []
runs (some h) = ran h ∷ []

abbrev pub repeated : {Handler : Type 0} → ℕ → Option Handler → List (Event Handler)
repeated zero o = []
repeated (suc n) o = runs o ++ repeated n o

module _ {Handler : Type 0} (handlers : HandlerTable Handler max_irq_count) where
  open handlers use {lookup, handle_result}

  abbrev pub after : IrqState handlers → List (Event Handler) → IrqState handlers
  after s es = record s { log = s.log ++ es }

  run_handler-runs :
      (o : Option Handler) (s : IrqState handlers) → run_handler handlers o s ≡ after s (runs o)
  run_handler-runs none s = rw append-nil
  run_handler-runs (some h) s = refl

  ipi_loop-done :
      (fuel irq : ℕ) (s : IrqState handlers) → ipi_loop handlers (suc fuel) irq 0 s ≡ some s
  unfolding ipi_loop
  ipi_loop-done fuel irq s = refl

  ipi_loop-step :
      (fuel irq status : ℕ) (s : IrqState handlers)
      → status < u32_mod
      → status ≢ 0
      → ipi_loop handlers (suc fuel) irq status s
        ≡ ipi_loop handlers fuel irq
            (status - 2 ^ trailing_zeros status)
            (after s (runs (lookup irq s.table)))
  unfolding ipi_loop
  ipi_loop-step fuel irq status s l nz =
      let (a, b, c, d) = lowest_one 32 status l nz in
      let v : ℕ = trailing_zeros status in
      let more : (status == 0) ≡ false = ground arith in
      let cleared : bit_and status (u32_max - 2 ^ v) ≡ status - 2 ^ v =
        omega (arith, bit_and-gap v 32 status a l b) in
      rw (more, cleared, handle_result irq s.table, run_handler-runs (lookup irq s.table) s)

  ipi_loop_lem :
      (fuel irq status n : ℕ) (s : IrqState handlers)
      → status < u32_mod
      → count_ones 32 status ≡ n
      → n < fuel
      → ipi_loop handlers fuel irq status s ≡ some (after s (repeated n (lookup irq s.table)))
  ipi_loop_lem zero irq status n s l e h = absurd (omega arith)
  ipi_loop_lem (suc fuel) irq status n s l e h = elim (ℕ_discrete status 0) [
    | yes z ↦
        let none_left : n ≡ 0 = sym e ∙ ap (count_ones 32) z ∙ count_ones-zero 32 in
        rw (z, none_left) (ipi_loop-done fuel irq s ∙ rw append-nil)
    | no nz ↦
        let (a, b, c, d) = lowest_one 32 status l nz in
        let v : ℕ = trailing_zeros status in
        let fewer : n ≡ suc (n - 1) = omega arith in
        ipi_loop-step fuel irq status s l nz
        ∙ ipi_loop_lem fuel irq (status - 2 ^ v) (n - 1) (after s (runs (lookup irq s.table)))
            (omega arith) (omega arith) (omega arith)
        ∙ rw append_assoc (ap (λ k. some (after s (repeated k (lookup irq s.table)))) (sym fewer))
  ]

  -- The events of an IPI.
  abbrev pub calls : (irq status : ℕ) → IrqState handlers → List (Event Handler)
  calls irq status s =
      if status == 0
      then []
      else ipi_clear status ∷ repeated (count_ones 32 status) (lookup irq s.table)

  handle_ipi_lem :
      (fuel irq status : ℕ) (s : IrqState handlers)
      → status < u32_mod
      → 32 < fuel
      → handle_ipi handlers fuel irq status s ≡ some (after s (calls irq status s))
  unfolding handle_ipi
  handle_ipi_lem fuel irq status s l h = elim (ℕ_discrete status 0) [
    | yes z ↦ rw z (rw append-nil)
    | no nz ↦
        let more : (status == 0) ≡ false = ground arith in
        rw more (
          ipi_loop_lem fuel irq status (count_ones 32 status) (emit handlers (ipi_clear status) s) l
            refl (omega (arith, count_ones-le 32 status))
          ∙ rw append_assoc)
  ]

  -- `handle` of the IPI always ends. Where the status is 0 it does nothing; else it clears the
  -- status that it read and runs the handler, if there is one, once for every bit that is set.
  pub handle-ipi :
      (status : ℕ) (s : IrqState handlers)
      → status < u32_mod
      → handle handlers status ipi_irq s ≡ some (after s (calls ipi_irq status s))
  unfolding handle
  handle-ipi status s l = handle_ipi_lem 33 ipi_irq status s l (omega arith)
