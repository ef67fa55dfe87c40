-- ===== src/Loongarch/Time/Laws.antt =====
-- The timer and the wall clock of platforms/axplat-loongarch64-qemu-virt/src/time.rs.
use axplat_crates.Prelude.{
  ℕ, ◌+◌, ◌-◌, ◌*◌, ◌/◌, ◌%◌, ◌^◌, ◌≤◌, ◌<◌, ◌≡◌, ap, ◌∙◌, true, false, none, some, [], ◌∷◌, ◌++◌,
  ltb, if◌then◌else◌, arith, returns, panics, sub64, mul64, as_u32, u64_mod, pos→not-zero,
  Bool-cases, inl, inr,
}
use axplat_crates.Prelude.Masks.{bit_and-ones}
use axplat_crates.Time.{wall_time_nanos, nanos_per_sec}
use axplat_crates.Time.Rate.{wall_at}
use axplat_crates.Loongarch.Time.{
  TimeState, set_init_val, set_en, write_rtcctrl, emit, ticks_to_nanos, nanos_to_ticks,
  extract_bits, Calendar, init_rtc, init_early, set_oneshot_timer, time_if,
}

nanos_to_ticks-rate :
    (rate nanos : ℕ) (s : TimeState)
    → s.nanos_per_tick ≡ some rate
    → 0 < rate
    → nanos_to_ticks s nanos ≡ returns (nanos / rate)
unfolding nanos_to_ticks
nanos_to_ticks-rate rate nanos s known pos = rw (known, pos→not-zero rate pos)

-- For a deadline that is not past, the timer starts with the ticks until the deadline's tick. For a
-- past one, a build with overflow checks panics, and one without starts the timer with the
-- wrapped difference, 2 ^ 64 less the ticks since the deadline.
pub set_oneshot_timer-starts :
    (rate ticks_now deadline_ns : ℕ) (s : TimeState)
    → s.nanos_per_tick ≡ some rate
    → 0 < rate
    → ticks_now < u64_mod
    → deadline_ns < u64_mod
    → (set_oneshot_timer true ticks_now deadline_ns s ≡ (
        if ltb (deadline_ns / rate) ticks_now
        then panics
        else returns (emit (set_en true) (emit (set_init_val (deadline_ns / rate - ticks_now)) s))))
      × (set_oneshot_timer false ticks_now deadline_ns s
          ≡ returns (
              emit (set_en true) (
                emit
                  (set_init_val (
                    if ltb (deadline_ns / rate) ticks_now
                    then u64_mod - (ticks_now - deadline_ns / rate)
                    else deadline_ns / rate - ticks_now))
                  s)))
unfolding set_oneshot_timer
set_oneshot_timer-starts rate ticks_now deadline_ns s known pos small far =
    let q : ℕ = deadline_ns / rate in
    let le : q ≤ deadline_ns = grind arith in
    rw (nanos_to_ticks-rate rate deadline_ns s known pos) (elim (Bool-cases (ltb q ticks_now)) [
      | inl past ↦
          let wrapped : sub64 q ticks_now ≡ u64_mod - (ticks_now - q) = ground arith in
          (rw past, rw (past, wrapped))
      | inr ahead ↦
          let exact : sub64 q ticks_now ≡ q - ticks_now = ground arith in
          (rw (ahead, exact), rw (ahead, exact))
    ])

extract_bits_lem :
    (value start end : ℕ) → extract_bits value start end ≡ value / 2 ^ start % 2 ^ (end - start)
unfolding extract_bits
extract_bits_lem value start end = bit_and-ones (end - start) (value / 2 ^ start)

-- The fields of the RTC's low word, from the month to the sixteenth parts.
abbrev pub toy_word : (month day hour minute second part : ℕ) → ℕ
toy_word month day hour minute second part =
    part + 16 * (second + 64 * (minute + 64 * (hour + 32 * (day + 32 * month))))

-- Where the RTC's registers hold the year since 1900 and the other fields of a date that `chrono`
-- knows, the first `init_early` sets the wall clock to this date: at the counter's value `now` it
-- shows the date's time and the time since then, as long as both clocks fit a `u64`.
pub init_early-date :
    (calendar : Calendar) (freq year month day hour minute second part start now epoch : ℕ)
    (s : TimeState)
    → 0 < freq
    → s.nanos_per_tick ≡ none
    → 1900 ≤ year
    → year < 2_500
    → month < 64
    → day < 32
    → hour < 32
    → minute < 64
    → second < 64
    → part < 16
    → calendar year month day hour minute second (part * 1_000_000) ≡ returns (some epoch)
    → start ≤ now
    → now * (nanos_per_sec / freq) < u64_mod
    → epoch + (now - start) * (nanos_per_sec / freq) < u64_mod
    → (t : TimeState) × (init_early calendar freq true
          (year - 1900)
          (toy_word month day hour minute second part)
          start
          s
        ≡ returns t)
      × (wall_time_nanos (time_if t) now ≡ returns (epoch + (now - start) * (nanos_per_sec / freq)))
unfolding init_early init_rtc ticks_to_nanos
init_early-date calendar freq year month day hour minute second part start now epoch s pos fresh a b
      c d e f g h date le fits wall =
    let rate : ℕ = nanos_per_sec / freq in
    let toy : ℕ = toy_word month day hour minute second part in
    let years : as_u32 (1900 + (year - 1900)) ≡ year = omega arith in
    let f0 : extract_bits toy 26 32 ≡ month = extract_bits_lem toy 26 32 ∙ omega arith in
    let f1 : extract_bits toy 21 26 ≡ day = extract_bits_lem toy 21 26 ∙ omega arith in
    let f2 : extract_bits toy 16 21 ≡ hour = extract_bits_lem toy 16 21 ∙ omega arith in
    let f3 : extract_bits toy 10 16 ≡ minute = extract_bits_lem toy 10 16 ∙ omega arith in
    let f4 : extract_bits toy 4 10 ≡ second = extract_bits_lem toy 4 10 ∙ omega arith in
    let f5 : extract_bits toy 0 4 ≡ part = extract_bits_lem toy 0 4 ∙ omega arith in
    let f6 : as_u32 (part * 1_000_000) ≡ part * 1_000_000 = omega arith in
    (
      record s {
        nanos_per_tick = some rate;
        rtc_epochoffset_nanos = sub64 epoch (mul64 start rate);
        log = s.log ++ write_rtcctrl (2 ^ 11 + 2 ^ 8) ∷ [];
      },
      rw (pos→not-zero freq pos, fresh, years, f0, f1, f2, f3, f4, f5, f6, date),
      ap returns (wall_at epoch rate start now le fits wall),
    )
