-- ===== src/Riscv/Console/Write.antt =====
-- The loop of `write_bytes` in platforms/axplat-riscv64-qemu-virt/src/console.rs.
use axplat_crates.Prelude.{
  ℕ, zero, suc, ◌+◌, ◌-◌, ◌≤◌, ◌<◌, ◌≡◌, refl, ap, ◌∙◌, min, none, some, List, ◌++◌, length, take,
  drop, replicate, add64, u64_mod, arith, append_assoc, append-nil, length-take, length-drop,
  length-append, take-take-append, take-take, take_all, drop_all, drop-drop, take-append-drop,
  dec_lt, lt→ltb, le→not-ltb, pos→not-zero,
}
use axplat_crates.Riscv.Console.{Sbi, max_rw_size, try_write_bytes, write_loop, write_bytes}

module _ (sbi : Sbi) where
  open sbi use {World, console_write, output, write_count, output-write}

  -- The chunk of a round: from `write_len` on, as much as the buffer holds.
  abbrev chunk : ℕ → List ℕ → List ℕ
  chunk write_len bytes = take (min max_rw_size (length bytes - write_len)) (drop write_len bytes)

  write_loop-zero :
      (bytes : List ℕ) (write_len : ℕ) (buf : List ℕ) (w : World)
      → write_loop sbi 0 bytes write_len buf w ≡ none
  unfolding write_loop
  write_loop-zero bytes write_len buf w = refl

  write_loop-done :
      (fuel : ℕ) (bytes : List ℕ) (write_len : ℕ) (buf : List ℕ) (w : World)
      → length bytes ≤ write_len
      → write_loop sbi (suc fuel) bytes write_len buf w ≡ some w
  unfolding write_loop
  write_loop-done fuel bytes write_len buf w h = rw (le→not-ltb write_len (length bytes) h)

  -- The buffer after the copy of a round.
  abbrev refilled : ℕ → List ℕ → List ℕ → List ℕ
  refilled write_len bytes buf =
      chunk write_len bytes ++ drop (min max_rw_size (length bytes - write_len)) buf

  chunk_fits :
      (write_len : ℕ) (bytes : List ℕ)
      → min max_rw_size (length bytes - write_len) ≤ length (drop write_len bytes)
  chunk_fits write_len bytes = omega (arith, length-drop write_len bytes)

  length-chunk :
      (write_len : ℕ) (bytes : List ℕ)
      → length (chunk write_len bytes) ≡ min max_rw_size (length bytes - write_len)
  length-chunk write_len bytes = omega (
    arith,
    length-take (min max_rw_size (length bytes - write_len)) (drop write_len bytes),
    chunk_fits write_len bytes,
  )

  length-refilled :
      (write_len : ℕ) (bytes buf : List ℕ)
      → length buf ≡ max_rw_size
      → length (refilled write_len bytes buf) ≡ max_rw_size
  length-refilled write_len bytes buf full = omega (
    arith,
    length-append (chunk write_len bytes) (drop (min max_rw_size (length bytes - write_len)) buf),
    length-chunk write_len bytes,
    length-drop (min max_rw_size (length bytes - write_len)) buf,
  )

  try_write_bytes-chunk :
      (write_len : ℕ) (bytes : List ℕ) (w : World)
      → try_write_bytes sbi (chunk write_len bytes) w ≡ console_write (chunk write_len bytes) w
  unfolding try_write_bytes
  try_write_bytes-chunk write_len bytes w =
      ap (λ l. console_write l w)
        (take_all (min (length (chunk write_len bytes)) max_rw_size) (chunk write_len bytes)
          (omega (arith, length-chunk write_len bytes)))

  write_loop-step :
      (fuel : ℕ) (bytes : List ℕ) (write_len : ℕ) (buf : List ℕ) (w : World)
      → length buf ≡ max_rw_size
      → write_len < length bytes
      → write_loop sbi (suc fuel) bytes write_len buf w ≡ (
          let (written, w') = console_write (chunk write_len bytes) w in
          write_loop sbi fuel bytes (add64 write_len written) (refilled write_len bytes buf) w')
  unfolding write_loop
  write_loop-step fuel bytes write_len buf w full h = rw (
    full,
    lt→ltb write_len (length bytes) h,
    pos→not-zero (min max_rw_size (length bytes - write_len)) (omega arith),
    take-take-append (min max_rw_size (length bytes - write_len)) (drop write_len bytes)
        (drop (min max_rw_size (length bytes - write_len)) buf) (chunk_fits write_len bytes),
    try_write_bytes-chunk write_len bytes w,
  )

  -- The console takes at least one byte of every write that has one.
  abbrev pub MakesProgress : Type 0
  MakesProgress = (bytes : List ℕ) (w : World) → 0 < length bytes → 0 < (console_write bytes w).0

  -- A round writes what it took off the rest.
  output-chunk :
      (write_len : ℕ) (bytes : List ℕ) (w : World)
      → let (written, w') = console_write (chunk write_len bytes) w in
        output w' ++ drop (write_len + written) bytes ≡ output w ++ drop write_len bytes
  output-chunk write_len bytes w =
      let n : ℕ = (console_write (chunk write_len bytes) w).0 in
      let le : n ≤ min max_rw_size (length bytes - write_len) =
        omega (arith, write_count (chunk write_len bytes) w, length-chunk write_len bytes) in
      rw (
        output-write (chunk write_len bytes) w,
        take-take n (min max_rw_size (length bytes - write_len)) (drop write_len bytes) le,
        append_assoc,
        ← drop-drop write_len n (write_len + n) bytes refl,
        take-append-drop n (drop write_len bytes),
      )

  write_loop_lem :
      (fuel : ℕ) (bytes : List ℕ) (write_len : ℕ) (buf : List ℕ) (w : World)
      → MakesProgress
      → length bytes < u64_mod
      → length buf ≡ max_rw_size
      → length bytes - write_len < fuel
      → (w' : World) × (write_loop sbi fuel bytes write_len buf w ≡ some w')
        × (output w' ≡ output w ++ drop write_len bytes)
  write_loop_lem zero bytes write_len buf w progress small full h = absurd (omega arith)
  write_loop_lem (suc fuel) bytes write_len buf w progress small full h =
      elim (dec_lt write_len (length bytes)) [
        | no done ↦ (
          w,
          write_loop-done fuel bytes write_len buf w (omega arith),
          rw (drop_all write_len bytes (omega arith), append-nil),
        )
        | yes more ↦
            let n : ℕ = (console_write (chunk write_len bytes) w).0 in
            let le : n ≤ length bytes - write_len =
              omega (arith, write_count (chunk write_len bytes) w, length-chunk write_len bytes) in
            let pos : 0 < n =
              progress (chunk write_len bytes) w (omega (arith, length-chunk write_len bytes)) in
            let same : add64 write_len n ≡ write_len + n = omega arith in
            let (w', run, out) =
              write_loop_lem fuel bytes (add64 write_len n) (refilled write_len bytes buf)
                (console_write (chunk write_len bytes) w).1 progress small
                (length-refilled write_len bytes buf full) (omega arith) in
            (
              w',
              write_loop-step fuel bytes write_len buf w full more ∙ run,
              out ∙ rw same (output-chunk write_len bytes w),
            )
      ]

  -- If every write of at least one byte takes at least one, the loop of `write_bytes` ends, after
  -- at most as many rounds as there are bytes, and has written exactly the bytes, in order.
  pub write_bytes_lem :
      (fuel : ℕ) (bytes : List ℕ) (w : World)
      → MakesProgress
      → length bytes < u64_mod
      → length bytes < fuel
      → (w' : World) × (write_bytes sbi fuel bytes w ≡ some w') × (output w' ≡ output w ++ bytes)
  unfolding write_bytes
  write_bytes_lem fuel bytes w progress small h =
      write_loop_lem fuel bytes 0 (replicate max_rw_size 0) w progress small refl (omega arith)

  write_loop-stuck :
      (fuel : ℕ) (bytes : List ℕ) (write_len : ℕ) (buf : List ℕ) (w : World)
      → ((b : List ℕ) (v : World) → (console_write b v).0 ≡ 0)
      → length buf ≡ max_rw_size
      → write_len < length bytes
      → length bytes < u64_mod
      → write_loop sbi fuel bytes write_len buf w ≡ none
  write_loop-stuck zero bytes write_len buf w broken full h small =
      write_loop-zero bytes write_len buf w
  write_loop-stuck (suc fuel) bytes write_len buf w broken full h small =
      let (n, w') = console_write (chunk write_len bytes) w in
      let same : add64 write_len n ≡ write_len = omega (arith, broken (chunk write_len bytes) w) in
      write_loop-step fuel bytes write_len buf w full h
      ∙ write_loop-stuck fuel bytes (add64 write_len n) (refilled write_len bytes buf) w' broken
          (length-refilled write_len bytes buf full) (rw same h) small

  -- Where the console takes no byte of any write, as after an error of the SBI, the loop never ends:
  -- `write_bytes` of at least one byte still runs after any number of rounds.
  pub write_bytes_spins :
      (fuel : ℕ) (bytes : List ℕ) (w : World)
      → ((b : List ℕ) (v : World) → (console_write b v).0 ≡ 0)
      → 0 < length bytes
      → length bytes < u64_mod
      → write_bytes sbi fuel bytes w ≡ none
  unfolding write_bytes
  write_bytes_spins fuel bytes w broken pos small =
      write_loop-stuck fuel bytes 0 (replicate max_rw_size 0) w broken refl pos small
