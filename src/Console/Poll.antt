-- ===== src/Console/Poll.antt =====
-- The reading loop takes bytes until the buffer is full or none is there.
use axplat_crates.Prelude.{
  ℕ, zero, suc, ◌+◌, ◌<◌, ◌≡◌, refl, true, sym, ap, ap₂, ◌∙◌, none, some, List, [], ◌∷◌, ◌++◌,
  length, set, drop, ltb, arith, append_assoc, length-append, lt→ltb, le→not-ltb, Option-cases, inl,
  inr,
}
use axplat_crates.Console.{Uart, poll_loop}

module _ (uart : Uart) where
  open uart use {World, getchar}

  -- At most `n` bytes, up to the first time that none is there.
  abbrev pub pull : ℕ → World → List ℕ × World
  pull zero w = ([], w)
  pull (suc n) w = elim (getchar w).0 [
    | none ↦ ([], (getchar w).1)
    | some b ↦ (let (bs, w') = pull n (getchar w).1 in (b ∷ bs, w'))
  ]

  set-append :
      (got rest : List ℕ) (r b : ℕ) → set (got ++ r ∷ rest) (length got) b ≡ got ++ b ∷ rest
  set-append [] rest r b = refl
  set-append (g ∷ got) rest r b = ap (λ l. g ∷ l) (set-append got rest r b)

  -- Where `got` bytes are in the buffer and `rest` is behind them, a loop with enough fuel ends: it
  -- has taken bytes for `rest`, up to the first time that none was there.
  pub poll_loop-pull :
      (rest : List ℕ) (fuel : ℕ) (got : List ℕ) (w : World)
      → length rest < fuel
      → poll_loop uart fuel (length got) (got ++ rest) w ≡ (
          let (bs, w') = pull (length rest) w in
          some (length got + length bs, got ++ (bs ++ drop (length bs) rest), w'))
  unfolding poll_loop
  poll_loop-pull rest zero got w h = absurd (omega arith)
  poll_loop-pull [] (suc fuel) got w h =
      let same : length got ≡ length got + 0 = omega arith in
      rw (le→not-ltb (length got) (length (got ++ [])) (omega (arith, length-append got [])))
        (ap (λ n. some (n, got ++ [], w)) same)
  poll_loop-pull (r ∷ rest) (suc fuel) got w h =
      let more : ltb (length got) (length (got ++ r ∷ rest)) ≡ true =
        lt→ltb (length got) (length (got ++ r ∷ rest))
          (omega (arith, length-append got (r ∷ rest))) in
      elim (Option-cases (getchar w).0) [
        | inl e ↦
            let same : length got ≡ length got + 0 = omega arith in
            rw (more, e) (ap (λ n. some (n, got ++ r ∷ rest, (getchar w).1)) same)
        | inr (b, e) ↦
            let bs : List ℕ = (pull (length rest) (getchar w).1).0 in
            let w' : World = (pull (length rest) (getchar w).1).1 in
            let len : length got + 1 ≡ length (got ++ b ∷ []) =
              omega (arith, length-append got (b ∷ [])) in
            let sum : length (got ++ b ∷ []) + length bs ≡ length got + suc (length bs) =
              omega (arith, length-append got (b ∷ [])) in
            rw (more, e)
              (ap₂ (λ n l. poll_loop uart fuel n l (getchar w).1) len
                  (set-append got rest r b ∙ sym (append_assoc got (b ∷ []) rest))
                ∙ poll_loop-pull rest fuel (got ++ b ∷ []) (getchar w).1 (omega arith)
                ∙ ap₂ (λ n l. some (n, l, w')) sum
                    (append_assoc got (b ∷ []) (bs ++ drop (length bs) rest)))
      ]

  -- From an empty start: one round more than there are bytes is enough.
  pub poll_loop-start :
      (bytes : List ℕ) (w : World)
      → poll_loop uart (suc (length bytes)) 0 bytes w ≡ (
          let (bs, w') = pull (length bytes) w in
          some (length bs, bs ++ drop (length bs) bytes, w'))
  poll_loop-start bytes w =
      let (bs, w') = pull (length bytes) w in
      let same : 0 + length bs ≡ length bs = omega arith in
      poll_loop-pull bytes (suc (length bytes)) [] w (omega arith)
      ∙ ap (λ n. some (n, bs ++ drop (length bs) bytes, w')) same
