-- ===== src/Boards/Console/Laws.antt =====
-- What the consoles of platforms/axplat-aarch64-bsta1000b and platforms/axplat-x86-pc write and read.
use axplat_crates.Prelude.{
  ℕ, ◌≡◌, refl, ap, ◌∙◌, some, List, [], ◌∷◌, ◌++◌, length, drop, ◌==◌, ◌||◌, Bool-cases, inl, inr,
  append_assoc,
}
use axplat_crates.Console.{Uart}
use axplat_crates.Console.Poll.{pull, poll_loop-start}
use axplat_crates.Console.Crlf.{cr, lf, any_newline, concat_map, output-loop}
use axplat_crates.Boards.Console.{
  dw_putchar, dw_write_bytes, dw_read_bytes, com1_write_bytes, com1_read_bytes,
}

-- The bytes as they are.
concat_map-single : (cs : List ℕ) → concat_map (λ c. c ∷ []) cs ≡ cs
concat_map-single [] = refl
concat_map-single (c ∷ cs) = ap (λ l. c ∷ l) (concat_map-single cs)

module _ (uart : Uart) where
  open uart use {World, output, output-putchar}

  output-dw_putchar : (c : ℕ) (w : World) → output (dw_putchar uart c w) ≡ output w ++ any_newline c
  unfolding dw_putchar
  output-dw_putchar c w = elim (Bool-cases (c == cr || c == lf)) [
    | inl e ↦ rw (e, output-putchar lf, output-putchar cr, append_assoc)
    | inr e ↦ rw (e, output-putchar c)
  ]

  -- On bsta1000b `write_bytes` sends the bytes in order, with `\r\n` for each carriage return and each
  -- newline; `read_bytes` ends, and gives the bytes that were there to read, at most as many as the
  -- buffer has, at the front of the buffer.
  pub dw_console_lem :
      (bytes : List ℕ) (w : World)
      → (output (dw_write_bytes uart bytes w) ≡ output w ++ concat_map any_newline bytes)
        × (dw_read_bytes uart bytes w ≡ (
            let (bs, w') = pull uart (length bytes) w in
            some (length bs, bs ++ drop (length bs) bytes, w')))
  unfolding dw_write_bytes dw_read_bytes
  dw_console_lem bytes w = (
    output-loop output any_newline (dw_putchar uart) (dw_write_bytes uart) (λ v. refl)
        (λ c cs v. refl) output-dw_putchar bytes w,
    poll_loop-start uart bytes w,
  )

  -- On x86-pc `write_bytes` sends exactly the bytes, in order; `read_bytes` ends, and gives the bytes
  -- that were there to read, at most as many as the buffer has, at the front of the buffer.
  pub com1_console_lem :
      (bytes : List ℕ) (w : World)
      → (output (com1_write_bytes uart bytes w) ≡ output w ++ bytes)
        × (com1_read_bytes uart bytes w ≡ (
            let (bs, w') = pull uart (length bytes) w in
            some (length bs, bs ++ drop (length bs) bytes, w')))
  unfolding com1_write_bytes com1_read_bytes
  com1_console_lem bytes w = (
    output-loop output (λ c. c ∷ []) uart.putchar (com1_write_bytes uart) (λ v. refl)
          (λ c cs v. refl) output-putchar bytes w
        ∙ ap (λ l. output w ++ l) (concat_map-single bytes),
    poll_loop-start uart bytes w,
  )
