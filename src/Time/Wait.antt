-- ===== src/Time/Wait.antt =====
-- The busy wait of axplat/src/time.rs ends when the clock has reached its deadline, and not before.
use axplat_crates.Prelude.{
  ℕ, zero, suc, ◌+◌, ◌≤◌, ◌<◌, ◌≡◌, refl, none, some, arith, returns, lt→ltb, le→not-ltb,
  lt→not-leb, ◌∙◌, dec_lt, subst,
}
use axplat_crates.Time.{TimeIf, wall_time, busy_wait_until, busy_wait, duration_end}

-- The wait ended with reading `m`: it is at or past the deadline, and the readings before it, from
-- `i` on, are not.
pub record Ended (wall : ℕ → ℕ) (deadline i m : ℕ) : Type 0 where
  pub from : i ≤ m
  pub reached : deadline ≤ wall m
  pub waited : (j : ℕ) → i ≤ j → j < m → wall j < deadline

module _ (t : TimeIf) (reads wall : ℕ → ℕ)
    (clock : (j : ℕ) → wall_time t (reads j) ≡ returns (wall j)) where
  busy_wait_until-step :
      (deadline fuel i : ℕ)
      → wall i < deadline
      → busy_wait_until t reads deadline (suc fuel) i
        ≡ busy_wait_until t reads deadline fuel (i + 1)
  unfolding busy_wait_until
  busy_wait_until-step deadline fuel i h = rw (clock i, lt→ltb (wall i) deadline h)

  busy_wait_until-done :
      (deadline fuel i : ℕ)
      → deadline ≤ wall i
      → busy_wait_until t reads deadline (suc fuel) i ≡ returns (some i)
  unfolding busy_wait_until
  busy_wait_until-done deadline fuel i h = rw (clock i, le→not-ltb (wall i) deadline h)

  abbrev pub Finishes : ℕ → ℕ → ℕ → ℕ → Type 0
  Finishes deadline k i fuel =
      (m : ℕ) × (busy_wait_until t reads deadline fuel i ≡ returns (some m))
      × (m ≤ i + k)
      × Ended wall deadline i m

  ends_now : (deadline k i fuel : ℕ) → deadline ≤ wall i → Finishes deadline k i (suc fuel)
  ends_now deadline k i fuel h = (
    i,
    busy_wait_until-done deadline fuel i h,
    omega arith,
    record { from = omega arith; reached = h; waited = λ j a b. absurd (omega arith) },
  )

  ends_later :
      (deadline k i fuel : ℕ)
      → wall i < deadline
      → Finishes deadline k (i + 1) fuel
      → Finishes deadline (suc k) i (suc fuel)
  ends_later deadline k i fuel h (m, run, le, e) = (
    m,
    busy_wait_until-step deadline fuel i h ∙ run,
    omega arith,
    record {
      from = omega (arith, e.from);
      reached = e.reached;
      waited = λ j a b. elim (dec_lt i j) [
        | yes later ↦ e.waited j (omega arith) b
        | no same ↦ subst (λ n. wall n < deadline) (omega arith) h
      ];
    },
  )

  -- If reading `i + k` of the clock is at or past the deadline, the wait ends by that reading: with
  -- fuel for `k + 1` rounds it returns, at the first reading that has reached the deadline.
  pub busy_wait_until_ends :
      (deadline k i fuel : ℕ) → deadline ≤ wall (i + k) → k < fuel → Finishes deadline k i fuel
  busy_wait_until_ends deadline k i zero h l = absurd (omega arith)
  busy_wait_until_ends deadline zero i (suc fuel) h l =
      ends_now deadline 0 i fuel (subst (λ n. deadline ≤ wall n) (omega arith) h)
  busy_wait_until_ends deadline (suc k) i (suc fuel) h l = elim (dec_lt (wall i) deadline) [
    | yes wait ↦ ends_later deadline k i fuel wait (
        busy_wait_until_ends deadline k (i + 1) fuel
          (subst (λ n. deadline ≤ wall n) (omega arith) h) (omega arith))
    | no stop ↦ ends_now deadline (suc k) i fuel (omega arith)
  ]

  -- A wait for `dur` that begins at reading `i` returns once the clock gets `dur` past the time of
  -- that reading, if it does so `k` readings after the next one: with fuel for `k + 1` rounds, and
  -- at the first reading past it. The deadline has to fit a `Duration`.
  pub busy_wait_ends :
      (dur k i fuel : ℕ)
      → wall i + dur < duration_end t
      → wall i + dur ≤ wall (i + 1 + k)
      → k < fuel
      → (m : ℕ) × (busy_wait t reads dur fuel i ≡ returns (some m))
        × (m ≤ i + 1 + k)
        × Ended wall (wall i + dur) (i + 1) m
  unfolding busy_wait
  busy_wait_ends dur k i fuel fits h l =
      let (m, run, le, e) = busy_wait_until_ends (wall i + dur) k (i + 1) fuel h l in
      (m, rw (clock i, lt→not-leb (wall i + dur) (duration_end t) fits) run, le, e)

  -- While the clock stays short of the deadline the wait goes on, whatever the number of rounds.
  pub busy_wait_until_spins :
      (deadline fuel i : ℕ)
      → ((j : ℕ) → wall j < deadline)
      → busy_wait_until t reads deadline fuel i ≡ returns none
  unfolding busy_wait_until
  busy_wait_until_spins deadline zero i h = refl
  busy_wait_until_spins deadline (suc fuel) i h =
      rw (clock i, lt→ltb (wall i) deadline (h i)) (busy_wait_until_spins deadline fuel (i + 1) h)
