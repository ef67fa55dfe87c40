-- ===== src/Mem/Difference.antt =====
-- The result of `ranges_difference` of axplat/src/mem.rs against the difference of the address sets.
pub mod Ascending
use axplat_crates.Prelude.{
  ℕ, ◌+◌, ◌-◌, ◌<◌, ◌≡◌, refl, ap, Bool, true, false, not, ◌&&◌, ◌||◌, List, [], ◌∷◌, ◌++◌, arith,
  All, Result, ok, err, and_then, Bool-cases, inl, inr, ltb, leb, if◌then◌else◌, add64, foldl_from,
}
use axplat_crates.Mem.{
  RawRange, OverlapErr, exclude_loop, cut_range, ranges_difference, check_sorted_ranges_overlap,
}
use axplat_crates.Mem.Overlap.{Fits, IsSorted, check_sorted_ranges_overlap-ok}

abbrev pub contains : ℕ → RawRange → Bool
contains x (start, size) = leb start x && ltb x (start + size)

-- Whether an address lies in one of the ranges.
abbrev pub covers : ℕ → List RawRange → Bool
covers x [] = false
covers x (r ∷ ranges) = contains x r || covers x ranges

-- The closure of the tests, `|r| res.push(r)`.
abbrev pub push : RawRange → List RawRange → List RawRange
push r res = res ++ r ∷ []

covers-append : (x : ℕ) (rs ss : List RawRange) → covers x (rs ++ ss) ≡ (covers x rs || covers x ss)
covers-append x [] ss = refl
covers-append x (r ∷ rs) ss = ground (arith, covers-append x rs ss)

covers-push :
    (x : ℕ) (r : RawRange) (rs : List RawRange)
    → covers x (push r rs) ≡ (covers x rs || contains x r)
covers-push x r rs = ground (arith, covers-append x rs (r ∷ []))

-- Below the first of the sorted ranges there is nothing.
covers-below : (x lo : ℕ) (rs : List RawRange) → IsSorted lo rs → x < lo → covers x rs ≡ false
covers-below x lo [] s h = refl
covers-below x lo ((start, size) ∷ rs) s h = ground (arith, covers-below x (start + size) rs s.1)

-- The four branches of a round over `exclude`.
module _ {ℓ} {S : Type ℓ} (op : RawRange → S → S) (es n : ℕ) (exclude : List RawRange)
    (start end : ℕ) (s : S) where
  exclude_loop-skip :
      leb (add64 es n) start ≡ true
      → exclude_loop op ((es, n) ∷ exclude) start end s ≡ exclude_loop op exclude start end s
  unfolding exclude_loop
  exclude_loop-skip h = rw h

  exclude_loop-stop :
      leb (add64 es n) start ≡ false
      → leb end es ≡ true
      → exclude_loop op ((es, n) ∷ exclude) start end s ≡ (start, s)
  unfolding exclude_loop
  exclude_loop-stop h k = rw (h, k)

  exclude_loop-emit :
      leb (add64 es n) start ≡ false
      → leb end es ≡ false
      → ltb start es ≡ true
      → exclude_loop op ((es, n) ∷ exclude) start end s
        ≡ exclude_loop op exclude (add64 es n) end (op (start, es - start) s)
  unfolding exclude_loop
  exclude_loop-emit h k l = rw (h, k, l)

  exclude_loop-advance :
      leb (add64 es n) start ≡ false
      → leb end es ≡ false
      → ltb start es ≡ false
      → exclude_loop op ((es, n) ∷ exclude) start end s ≡ exclude_loop op exclude (add64 es n) end s
  unfolding exclude_loop
  exclude_loop-advance h k l = rw (h, k, l)

exclude_loop-nil {ℓ} :
    {S : Type ℓ} (op : RawRange → S → S) (start end : ℕ) (s : S)
    → exclude_loop op [] start end s ≡ (start, s)
unfolding exclude_loop
exclude_loop-nil op start end s = refl

-- What `cut_range` leaves, once the loop over `exclude` has ended.
abbrev pub emit_rest : ℕ → ℕ × List RawRange → List RawRange
emit_rest end (start, s) = if ltb start end then push (start, end - start) s else s

covers-emit_rest :
    (x start end : ℕ) (s : List RawRange)
    → covers x (emit_rest end (start, s)) ≡ (covers x s || (leb start x && ltb x end))
covers-emit_rest x start end s = ground (arith, covers-push x (start, end - start) s)

covers-exclude_loop :
    (x : ℕ) (exclude : List RawRange) (lo start end : ℕ) (s : List RawRange)
    → IsSorted lo exclude
    → All Fits exclude
    → covers x (emit_rest end (exclude_loop push exclude start end s))
      ≡ (covers x s || (leb start x && ltb x end && not (covers x exclude)))
covers-exclude_loop x [] lo start end s sorted fits =
    rw exclude_loop-nil (ground (arith, covers-emit_rest x start end s))
covers-exclude_loop x ((es, n) ∷ exclude) lo start end s sorted fits =
    elim (Bool-cases (leb (add64 es n) start)) [
      | inl skip ↦
          rw (exclude_loop-skip push es n exclude start end s skip)
            (rw (covers-exclude_loop x exclude (es + n) start end s sorted.1 fits.1) (ground arith))
      | inr past ↦ elim (Bool-cases (leb end es)) [
        | inl stop ↦ rw (exclude_loop-stop push es n exclude start end s past stop) (
            ground
              (arith, covers-emit_rest x start end s, covers-below x (es + n) exclude sorted.1))
        | inr meets ↦ elim (Bool-cases (ltb start es)) [
          | inl cut ↦ rw (exclude_loop-emit push es n exclude start end s past meets cut) (
              rw
                (covers-exclude_loop x exclude (es + n) (add64 es n) end
                  (push (start, es - start) s) sorted.1 fits.1)
                (ground (
                  arith,
                  covers-push x (start, es - start) s,
                  covers-below x (es + n) exclude sorted.1,
                )))
          | inr inside ↦ rw (exclude_loop-advance push es n exclude start end s past meets inside) (
              rw (covers-exclude_loop x exclude (es + n) (add64 es n) end s sorted.1 fits.1)
                (ground arith))
        ]
      ]
    ]

covers-cut_range :
    (x : ℕ) (exclude : List RawRange) (r : RawRange) (s : List RawRange)
    → IsSorted 0 exclude
    → All Fits exclude
    → Fits r
    → covers x (cut_range push exclude r s)
      ≡ (covers x s || (contains x r && not (covers x exclude)))
unfolding cut_range
covers-cut_range x exclude (start, size) s sorted fits fit =
    rw (covers-exclude_loop x exclude 0 start (add64 start size) s sorted fits) (ground arith)

covers-cut_ranges :
    (x : ℕ) (exclude from : List RawRange) (s : List RawRange)
    → IsSorted 0 exclude
    → All Fits exclude
    → All Fits from
    → covers x (foldl_from (cut_range push exclude) s from)
      ≡ (covers x s || (covers x from && not (covers x exclude)))
covers-cut_ranges x exclude [] s sorted fits fit = ground arith
covers-cut_ranges x exclude (r ∷ from) s sorted fits fit =
    rw (covers-cut_ranges x exclude from (cut_range push exclude r s) sorted fits fit.1)
      (rw (covers-cut_range x exclude r s sorted fits fit.0) (ground arith))

-- With ranges that end inside the address space, an excluded list that is in order is accepted, and
-- the ranges given to the closure cover exactly the addresses of `from` that no excluded range holds.
pub ranges_difference_exact :
    (from exclude : List RawRange)
    → All Fits from
    → All Fits exclude
    → IsSorted 0 exclude
    → (out : List RawRange) × (ranges_difference push from exclude [] ≡ ok out)
      × ((x : ℕ) → covers x out ≡ (covers x from && not (covers x exclude)))
unfolding ranges_difference
ranges_difference_exact from exclude fit fits sorted = (
  foldl_from (cut_range push exclude) [] from,
  rw ((check_sorted_ranges_overlap-ok exclude fits).1 sorted),
  λ x. covers-cut_ranges x exclude from [] sorted fits fit,
)

-- An excluded list that is out of order is refused with the error of the overlap check, before the
-- closure is called.
pub ranges_difference_refuses {ℓ} :
    {S : Type ℓ} (op : RawRange → S → S) (from exclude : List RawRange) (s : S)
    → All Fits exclude
    → ¬ IsSorted 0 exclude
    → (e : OverlapErr) × (check_sorted_ranges_overlap exclude ≡ err e)
      × (ranges_difference op from exclude s ≡ err e)
unfolding ranges_difference
ranges_difference_refuses op from exclude s fits bad =
    refused (check_sorted_ranges_overlap exclude) refl
  where
    refused :
        (r : Result (Unit {0}) OverlapErr)
        → check_sorted_ranges_overlap exclude ≡ r
        → (e : OverlapErr) × (check_sorted_ranges_overlap exclude ≡ err e)
          × (ranges_difference op from exclude s ≡ err e)
    refused (ok u) h = absurd (bad ((check_sorted_ranges_overlap-ok exclude fits).0 h))
    refused (err e) h = (e, h, rw h)

-- Whatever the closure does, it is called on the ranges that the pushing closure collects, in order.
module _ {ℓ} {S : Type ℓ} (op : RawRange → S → S) (s₀ : S) where
  abbrev replay : List RawRange → S
  replay out = foldl_from op s₀ out

  replay-push :
      (r : RawRange) (s : S) (out : List RawRange)
      → foldl_from op s (push r out) ≡ op r (foldl_from op s out)
  replay-push r s [] = refl
  replay-push r s (q ∷ out) = replay-push r (op q s) out

  replay-exclude_loop :
      (exclude : List RawRange) (start end : ℕ) (acc : List RawRange)
      → exclude_loop op exclude start end (replay acc)
        ≡ (let (start', out) = exclude_loop push exclude start end acc in (start', replay out))
  unfolding exclude_loop
  replay-exclude_loop [] start end acc = refl
  replay-exclude_loop ((es, n) ∷ exclude) start end acc =
      elim (Bool-cases (leb (add64 es n) start)) [
        | inl skip ↦ rw skip (replay-exclude_loop exclude start end acc)
        | inr past ↦ elim (Bool-cases (leb end es)) [
          | inl stop ↦ rw (past, stop)
          | inr meets ↦ elim (Bool-cases (ltb start es)) [
            | inl cut ↦
                rw (past, meets, cut, ← replay-push (start, es - start) s₀ acc)
                  (replay-exclude_loop exclude (add64 es n) end (push (start, es - start) acc))
            | inr inside ↦
                rw (past, meets, inside) (replay-exclude_loop exclude (add64 es n) end acc)
          ]
        ]
      ]

  replay-emit :
      (end start : ℕ) (acc : List RawRange)
      → (if ltb start end then op (start, end - start) (replay acc) else replay acc)
        ≡ replay (emit_rest end (start, acc))
  replay-emit end start acc = elim (Bool-cases (ltb start end)) [
    | inl more ↦ rw (more, replay-push (start, end - start) s₀ acc)
    | inr done ↦ rw done
  ]

  replay-cut_ranges :
      (exclude from : List RawRange) (acc : List RawRange)
      → foldl_from (cut_range op exclude) (replay acc) from
        ≡ replay (foldl_from (cut_range push exclude) acc from)
  unfolding cut_range
  replay-cut_ranges exclude [] acc = refl
  replay-cut_ranges exclude ((start, size) ∷ from) acc =
      rw
        (
          replay-exclude_loop exclude start (add64 start size) acc,
          replay-emit (add64 start size) (exclude_loop push exclude start (add64 start size) acc).0
              (exclude_loop push exclude start (add64 start size) acc).1,
        )
        (replay-cut_ranges exclude from
          (emit_rest (add64 start size) (exclude_loop push exclude start (add64 start size) acc)))

  -- For every closure, the run is that of the closure of the tests, `|r| res.push(r)`, with the
  -- ranges it collects then handed to the given one in that order; an error is the same error.
  pub ranges_difference_replays :
      (from exclude : List RawRange)
      → ranges_difference op from exclude s₀
        ≡ and_then (ranges_difference push from exclude []) (λ out. ok (foldl_from op s₀ out))
  unfolding ranges_difference
  ranges_difference_replays from exclude =
      elim (check_sorted_ranges_overlap exclude)
        as (λ r.
          and_then r (λ _. ok (foldl_from (cut_range op exclude) s₀ from))
          ≡ and_then (and_then r (λ _. ok (foldl_from (cut_range push exclude) [] from)))
              (λ out. ok (foldl_from op s₀ out))) [
                | ok _ ↦ ap ok (replay-cut_ranges exclude from [])
                | err _ ↦ refl
              ]
