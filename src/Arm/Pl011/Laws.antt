-- ===== src/Arm/Pl011/Laws.antt =====
-- What the PL011 console writes, reads and echoes.
use axplat_crates.Prelude.{
  ℕ, zero, suc, ◌<◌, ◌≡◌, refl, ◌∙◌, Bool, none, some, List, [], ◌∷◌, ◌++◌, length, drop, ◌==◌,
  if◌then◌else◌, Bool-cases, inl, inr, arith, append_assoc, append-nil,
}
use axplat_crates.Console.{Uart}
use axplat_crates.Console.Poll.{pull, poll_loop-start}
use axplat_crates.Console.Crlf.{
  cr, lf, newline, concat_map, without_cr, without_cr-concat_map, output-loop,
}
use axplat_crates.Arm.Pl011.{
  do_putchar, putchar, getchar, write_bytes, read_bytes, echo_loop, irq_handler,
}

module _ (uart : Uart) where
  open uart use {World, output, output-putchar, output-getchar}

  output-do_putchar : (c : ℕ) (w : World) → output (do_putchar uart c w) ≡ output w ++ newline c
  unfolding do_putchar
  output-do_putchar c w = elim (Bool-cases (c == lf)) [
    | inl e ↦ rw (e, output-putchar lf, output-putchar cr, append_assoc)
    | inr e ↦ rw (e, output-putchar c)
  ]

  -- `write_bytes` sends the bytes in order, with `\r\n` for each newline. Whoever ignores carriage
  -- returns reads the same text.
  pub write_bytes_crlf :
      (bytes : List ℕ) (w : World)
      → (output (write_bytes uart bytes w) ≡ output w ++ concat_map newline bytes)
        × (without_cr (concat_map newline bytes) ≡ without_cr bytes)
  unfolding write_bytes
  write_bytes_crlf bytes w = (
    output-loop output newline (do_putchar uart) (write_bytes uart) (λ v. refl) (λ c cs v. refl)
        output-do_putchar bytes w,
    without_cr-concat_map bytes,
  )

  -- `read_bytes` ends, and gives the number of bytes that were there to read, at most as many as
  -- the buffer has, with these bytes at the front of the buffer and the others left as they were.
  read_bytes_lem :
      (bytes : List ℕ) (w : World)
      → read_bytes uart bytes w ≡ (
          let (bs, w') = pull uart (length bytes) w in
          some (length bs, bs ++ drop (length bs) bytes, w'))
  unfolding read_bytes
  read_bytes_lem bytes w = poll_loop-start uart bytes w

  -- The line has the bytes to read one after the other while each is echoed, and then none.
  abbrev pub Delivers : List ℕ → World → Type 0
  Delivers [] w = (getchar uart w).0 ≡ none
  Delivers (b ∷ bs) w =
      ((getchar uart w).0 ≡ some b) × Delivers bs (putchar uart b (getchar uart w).1)

  echo_loop-none :
      (fuel : ℕ) (w : World)
      → (getchar uart w).0 ≡ none
      → echo_loop uart (suc fuel) w ≡ some (getchar uart w).1
  unfolding echo_loop getchar
  echo_loop-none fuel w e = rw (echo_loop, e)

  echo_loop-some :
      (fuel b : ℕ) (w : World)
      → (getchar uart w).0 ≡ some b
      → echo_loop uart (suc fuel) w ≡ echo_loop uart fuel (putchar uart b (getchar uart w).1)
  unfolding echo_loop getchar
  echo_loop-some fuel b w e = rw (echo_loop, e)

  output-echo :
      (b : ℕ) (w : World) → output (putchar uart b (getchar uart w).1) ≡ output w ++ newline b
  unfolding putchar getchar
  output-echo b w = rw (output-do_putchar, output-getchar)

  -- The line after the bytes were read from it and echoed, one after the other.
  abbrev pub echoed : List ℕ → World → World
  echoed [] w = (getchar uart w).1
  echoed (b ∷ bs) w = echoed bs (putchar uart b (getchar uart w).1)

  echo_loop_lem :
      (bs : List ℕ) (fuel : ℕ) (w : World)
      → Delivers bs w
      → length bs < fuel
      → (echo_loop uart fuel w ≡ some (echoed bs w))
        × (output (echoed bs w) ≡ output w ++ concat_map newline bs)
  unfolding getchar
  echo_loop_lem bs zero w d h = absurd (omega arith)
  echo_loop_lem [] (suc fuel) w d h = (echo_loop-none fuel w d, rw (output-getchar, append-nil))
  echo_loop_lem (b ∷ bs) (suc fuel) w (d, ds) h =
      let (run, out) = echo_loop_lem bs fuel (putchar uart b (getchar uart w).1) ds (omega arith) in
      (echo_loop-some fuel b w d ∙ run, out ∙ rw (output-echo b w, append_assoc))

  -- On a receive interrupt the handler acknowledges, then takes every byte that the line delivers
  -- and sends each back as it takes it, `\r\n` for a newline, and ends; on another interrupt it ends
  -- with the line as the acknowledgement leaves it. This is where the acknowledgement writes nothing
  -- and the fuel is for more rounds than there are bytes.
  pub irq_handler_echoes :
      (is_receive_interrupt : World → Bool) (ack_interrupts : World → World) (bs : List ℕ)
      (fuel : ℕ) (w : World)
      → ((v : World) → output (ack_interrupts v) ≡ output v)
      → Delivers bs (ack_interrupts w)
      → length bs < fuel
      → let w' =
          if is_receive_interrupt w then echoed bs (ack_interrupts w) else ack_interrupts w in
        (irq_handler uart is_receive_interrupt ack_interrupts fuel w ≡ some w')
        × (output w' ≡ output w ++ (if is_receive_interrupt w then concat_map newline bs else []))
  unfolding irq_handler
  irq_handler_echoes receive ack bs fuel w quiet d h =
      let (run, out) = echo_loop_lem bs fuel (ack w) d h in
      elim (Bool-cases (receive w)) [
        | inl e ↦ (rw e run, rw e (out ∙ rw quiet))
        | inr e ↦ (rw e, rw (e, quiet, append-nil))
      ]
