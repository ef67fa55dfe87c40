-- ===== src/Loongarch/Console/Laws.antt =====
-- What the console of platforms/axplat-loongarch64-qemu-virt writes and reads.
use axplat_crates.Prelude.{
  ℕ, suc, ◌+◌, ◌≡◌, refl, ap, ◌∙◌, List, [], ◌∷◌, ◌++◌, length, drop, ◌==◌, Bool-cases,
  Option-cases, inl, inr, arith, append_assoc,
}
use axplat_crates.Console.{Uart}
use axplat_crates.Console.Poll.{pull}
use axplat_crates.Console.Crlf.{cr, lf, newline, concat_map, output-loop}
use axplat_crates.Loongarch.Console.{put_byte, write_bytes, read_loop, read_bytes}

module _ (uart : Uart) where
  open uart use {World, output, output-putchar, getchar}

  output-put_byte : (c : ℕ) (w : World) → output (put_byte uart c w) ≡ output w ++ newline c
  output-put_byte c w = elim (Bool-cases (c == lf)) [
    | inl e ↦ rw (e, output-putchar lf, output-putchar cr, append_assoc)
    | inr e ↦ rw (e, output-putchar c)
  ]

  -- `write_bytes` sends the bytes in order, with `\r\n` for each newline.
  pub write_bytes-newline :
      (bytes : List ℕ) (w : World)
      → output (write_bytes uart bytes w) ≡ output w ++ concat_map newline bytes
  unfolding write_bytes
  write_bytes-newline bytes w =
      output-loop output newline (put_byte uart) (write_bytes uart) (λ v. refl) (λ c cs v. refl)
        output-put_byte bytes w

  read_loop-pull :
      (i : ℕ) (bytes : List ℕ) (w : World)
      → read_loop uart i bytes w ≡ (
          let (bs, w') = pull uart (length bytes) w in
          (i + length bs, bs ++ drop (length bs) bytes, w'))
  unfolding read_loop
  read_loop-pull i [] w = let same : i ≡ i + 0 = omega arith in ap (λ (n : ℕ). (n, [], w)) same
  read_loop-pull i (byte ∷ bytes) w = elim (Option-cases (getchar w).0) [
    | inl e ↦
        let same : i ≡ i + 0 = omega arith in
        rw (read_loop, e) (ap (λ (n : ℕ). (n, byte ∷ bytes, (getchar w).1)) same)
    | inr (c, e) ↦
        let bs : List ℕ = (pull uart (length bytes) (getchar w).1).0 in
        let w' : World = (pull uart (length bytes) (getchar w).1).1 in
        let sum : i + 1 + length bs ≡ i + suc (length bs) = omega arith in
        rw (read_loop, e, read_loop-pull (i + 1) bytes (getchar w).1)
          (ap (λ (n : ℕ). (n, c ∷ bs ++ drop (length bs) bytes, w')) sum)
  ]

  -- `read_bytes` gives the number of bytes that were there to read, at most as many as the buffer
  -- has, with these bytes at the front of the buffer and the others left as they were.
  pub read_bytes-pull :
      (bytes : List ℕ) (w : World)
      → read_bytes uart bytes w ≡ (
          let (bs, w') = pull uart (length bytes) w in
          (length bs, bs ++ drop (length bs) bytes, w'))
  unfolding read_bytes
  read_bytes-pull bytes w =
      let (bs, w') = pull uart (length bytes) w in
      let same : 0 + length bs ≡ length bs = omega arith in
      read_loop-pull 0 bytes w ∙ ap (λ (n : ℕ). (n, bs ++ drop (length bs) bytes, w')) same
