-- ===== src/Riscv/Console.antt =====
-- The console of platforms/axplat-riscv64-qemu-virt/src/console.rs, on the SBI debug console.
pub mod Write
mod Tests
use axplat_crates.Prelude.{
  ℕ, zero, suc, ◌+◌, ◌-◌, ◌≤◌, ◌≡◌, min, Option, none, some, List, [], ◌∷◌, ◌++◌, length, take,
  drop, replicate, ltb, ◌==◌, if◌then◌else◌, add64,
}

abbrev pub max_rw_size : ℕ
max_rw_size = 256

-- The calls of `sbi_rt`, which is not part of this repository, over the state of the console, and
-- what the SBI specification says of them: a write takes a number of bytes from the front, a read
-- gives no more bytes than asked for. `output` is what was written so far. A call gives the `value`
-- field of its result; the physical address of the buffer is read as the buffer's bytes.
pub record Sbi : Type 1 where
  pub World : Type 0
  pub console_write : List ℕ → World → ℕ × World
  pub console_read : ℕ → World → List ℕ × World
  pub output : World → List ℕ
  pub write_count : (bytes : List ℕ) (w : World) → (console_write bytes w).0 ≤ length bytes
  pub output-write :
      (bytes : List ℕ) (w : World)
      → output (console_write bytes w).1 ≡ output w ++ take (console_write bytes w).0 bytes
  pub read_count : (n : ℕ) (w : World) → length (console_read n w).0 ≤ n

module _ (sbi : Sbi) where
  open sbi use {World, console_write, console_read}

  pub try_write_bytes : List ℕ → World → ℕ × World
  try_write_bytes bytes w = console_write (take (min (length bytes) max_rw_size) bytes) w

  -- The `while` loop, for at most `fuel` rounds: `none` while it still runs.
  pub write_loop : ℕ → List ℕ → ℕ → List ℕ → World → Option World
  unfolding try_write_bytes
  write_loop zero bytes write_len buf w = none
  write_loop (suc fuel) bytes write_len buf w =
      let n = min (length buf) (length bytes - write_len) in
      let buf' = take n (drop write_len bytes) ++ drop n buf in
      let (written, w') = try_write_bytes (take n buf') w in
      let rest = write_loop fuel bytes (add64 write_len written) buf' w' in
      if ltb write_len (length bytes) then if n == 0 then some w else rest else some w

  pub write_bytes : ℕ → List ℕ → World → Option World
  unfolding write_loop
  write_bytes fuel bytes w = write_loop fuel bytes 0 (replicate max_rw_size 0) w

  -- The bytes that the SBI stores go to the front of the buffer.
  pub read_bytes : List ℕ → World → ℕ × List ℕ × World
  read_bytes buf w =
      let (stored, w') = console_read (min (length buf) max_rw_size) w in
      (length stored, stored ++ drop (length stored) buf, w')
