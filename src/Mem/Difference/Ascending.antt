-- ===== src/Mem/Difference/Ascending.antt =====
-- The order of the ranges that `ranges_difference` of axplat/src/mem.rs hands to its closure.
use axplat_crates.Prelude.{
  ℕ, ◌+◌, ◌-◌, ◌≤◌, ◌<◌, ◌≡◌, refl, List, [], ◌∷◌, arith, All, Result, ok, err, and_then, subst,
  Bool-cases, inl, inr, ltb, leb, add64, foldl_from,
}
use axplat_crates.Mem.{
  RawRange, OverlapErr, exclude_loop, cut_range, ranges_difference, check_sorted_ranges_overlap,
}
use axplat_crates.Mem.Overlap.{Fits, IsSorted}
use axplat_crates.Mem.Difference.{push, emit_rest}

-- The end of the last range, or `lo` if there is none.
abbrev last_end : ℕ → List RawRange → ℕ
last_end lo [] = lo
last_end lo ((start, size) ∷ rs) = last_end (start + size) rs

abbrev pub IsNonempty : RawRange → Type 0
IsNonempty (_, size) = 0 < size

IsSorted-push :
    (lo start n : ℕ) (rs : List RawRange)
    → IsSorted lo rs
    → last_end lo rs ≤ start
    → IsSorted lo (push (start, n) rs)
IsSorted-push lo start n [] s h = (h, tt)
IsSorted-push lo start n ((b, m) ∷ rs) s h = (s.0, IsSorted-push (b + m) start n rs s.1 h)

last_end-push : (lo start n : ℕ) (rs : List RawRange) → last_end lo (push (start, n) rs) ≡ start + n
last_end-push lo start n [] = refl
last_end-push lo start n ((b, m) ∷ rs) = last_end-push (b + m) start n rs

All-push :
    (start n : ℕ) (rs : List RawRange)
    → All IsNonempty rs
    → 0 < n
    → All IsNonempty (push (start, n) rs)
All-push start n [] a h = (h, tt)
All-push start n (r ∷ rs) a h = (a.0, All-push start n rs a.1 h)

-- In order, no range empty, and nothing past `bound`.
record Ascending (bound : ℕ) (out : List RawRange) : Type 0 where
  sorted : IsSorted 0 out
  nonempty : All IsNonempty out
  bounded : last_end 0 out ≤ bound

push-Ascending :
    {bound : ℕ} (start n : ℕ) {out : List RawRange}
    → Ascending start out
    → 0 < n
    → start + n ≤ bound
    → Ascending bound (push (start, n) out)
push-Ascending start n {out} a h k = record {
  sorted = IsSorted-push 0 start n out a.sorted a.bounded;
  nonempty = All-push start n out a.nonempty h;
  bounded = omega (arith, last_end-push 0 start n out);
}

weaken :
    {bound bound' : ℕ} {out : List RawRange}
    → Ascending bound out
    → bound ≤ bound'
    → Ascending bound' out
weaken a h = record { sorted = a.sorted; nonempty = a.nonempty; bounded = omega arith }

exclude_loop-Ascending :
    (exclude : List RawRange) (start end : ℕ) (out : List RawRange)
    → All Fits exclude
    → Ascending start out
    → Ascending end out
    → let (start', out') = exclude_loop push exclude start end out in
      Ascending start' out' × Ascending end out'
unfolding exclude_loop
exclude_loop-Ascending [] start end out fits a b = (a, b)
exclude_loop-Ascending ((es, n) ∷ exclude) start end out fits a b =
    elim (Bool-cases (leb (add64 es n) start)) [
      | inl skip ↦ rw skip (exclude_loop-Ascending exclude start end out fits.1 a b)
      | inr past ↦ elim (Bool-cases (leb end es)) [
        | inl stop ↦ rw (past, stop) (a, b)
        | inr meets ↦ elim (Bool-cases (ltb start es)) [
          | inl cut ↦
              rw (past, meets, cut)
                (exclude_loop-Ascending exclude (add64 es n) end (push (start, es - start) out)
                  fits.1 (push-Ascending start (es - start) a (ground arith) (ground arith))
                  (push-Ascending start (es - start) a (ground arith) (ground arith)))
          | inr inside ↦
              rw (past, meets, inside)
                (exclude_loop-Ascending exclude (add64 es n) end out fits.1
                  (weaken a (ground arith)) b)
        ]
      ]
    ]

cut_range-Ascending :
    (exclude : List RawRange) (start size : ℕ) (out : List RawRange)
    → All Fits exclude
    → Fits (start, size)
    → Ascending start out
    → Ascending (start + size) (cut_range push exclude (start, size) out)
unfolding cut_range
cut_range-Ascending exclude start size out fits fit a =
    emit (exclude_loop push exclude start (add64 start size) out)
      (exclude_loop-Ascending exclude start (add64 start size) out fits a (weaken a (omega arith)))
  where
    emit :
        (q : ℕ × List RawRange)
        → Ascending q.0 q.1 × Ascending (add64 start size) q.1
        → Ascending (start + size) (emit_rest (add64 start size) q)
    emit (start', out') (b, c) = elim (Bool-cases (ltb start' (add64 start size))) [
      | inl more ↦
          rw more
            (push-Ascending start' (add64 start size - start') b (ground arith) (ground arith))
      | inr done ↦ rw done (weaken c (omega arith))
    ]

cut_ranges-Ascending :
    (exclude from : List RawRange) (bound : ℕ) (out : List RawRange)
    → All Fits exclude
    → All Fits from
    → IsSorted bound from
    → Ascending bound out
    → All IsNonempty (foldl_from (cut_range push exclude) out from)
      × IsSorted 0 (foldl_from (cut_range push exclude) out from)
cut_ranges-Ascending exclude [] bound out fits fit sorted a = (a.nonempty, a.sorted)
cut_ranges-Ascending exclude ((start, size) ∷ from) bound out fits fit sorted a =
    cut_ranges-Ascending exclude from (start + size) (cut_range push exclude (start, size) out) fits
      fit.1 sorted.1 (cut_range-Ascending exclude start size out fits fit.0 (weaken a sorted.0))

-- If `from` is in order too, the ranges given to the closure come in order, do not overlap and are
-- not empty, so they can be excluded in turn.
pub ranges_difference_ascending :
    (from exclude out : List RawRange)
    → All Fits from
    → All Fits exclude
    → IsSorted 0 from
    → ranges_difference push from exclude [] ≡ ok out
    → All IsNonempty out × IsSorted 0 out
unfolding ranges_difference
ranges_difference_ascending from exclude out fit fits sorted h =
    accepted (check_sorted_ranges_overlap exclude) h
  where
    accepted :
        (r : Result (Unit {0}) OverlapErr)
        → and_then r (λ _. ok (foldl_from (cut_range push exclude) [] from)) ≡ ok out
        → All IsNonempty out × IsSorted 0 out
    accepted (ok _) e =
        subst (λ l. All IsNonempty l × IsSorted 0 l) (cc)
          (cut_ranges-Ascending exclude from 0 [] fits fit sorted
            (record { sorted = tt; nonempty = tt; bounded = omega arith }))
    accepted (err _) e = cc
