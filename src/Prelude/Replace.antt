-- ===== src/Prelude/Replace.antt =====
-- `str::replace`, as cargo-axplat/src/new.rs and the build scripts of examples use it.
use Prim.Native.Nat.{Ordering, compare as compare_ℕ}
use Prim.Native.String.{String, ◌++◌ as str_append, len, slice, find}
use native.Mathlib.Bridge.{IsLe, le_by_compare}
use native.Mathlib.Decide.{compare_of_le}
use text.Mathlib.Text.{find?, is_le}
use text.Mathlib.TextFind.{find_cases}
use text.Mathlib.TextLemmas as Text
use text.Mathlib.TextPositions.{len-append, slice-append_left, slice-append_middle}
use Prim.Native.Nat.{ℕ, zero, suc, ◌+◌, ◌≤◌, ◌<◌}
use mathlib.Core.Path.{◌≡◌, refl, sym, ap, subst, ◌∙◌}
use mathlib.Core.Logic.{◌⊎◌, inl, inr}
use mathlib.Core.Bool.{true, false}
use mathlib.Core.Option.{none, some}
use native.Mathlib.Omega.{arith}
use axplat_crates.Prelude.Tests.{Bool-cases}

-- `str::replace` of a text that is not empty; each round passes over a byte at least.
unfoldable pub replace_on : (fuel : ℕ) → (from to : String) → String → String
replace_on zero from to s = s
replace_on (suc fuel) from to s = elim (find? s from) [
  | none ↦ s
  | some i ↦
      str_append (slice s 0 i)
        (str_append to (replace_on fuel from to (slice s (i + len from) (len s))))
]

abbrev pub replace : (from to : String) → String → String
replace from to s = replace_on (len s) from to s

from_IsLe : (o : Ordering) → IsLe o → is_le o ≡ true
unfolding IsLe
from_IsLe Ordering.lt h = refl
from_IsLe Ordering.eq h = refl
from_IsLe Ordering.gt h = absurd h

to_IsLe : (o : Ordering) → is_le o ≡ true → IsLe o
unfolding IsLe
to_IsLe Ordering.lt h = tt
to_IsLe Ordering.eq h = tt
to_IsLe Ordering.gt h = cc

at_most : (m n : ℕ) → m ≤ n → is_le (compare_ℕ m n) ≡ true
at_most m n h = from_IsLe _ (compare_of_le m n h)

past : (n : ℕ) → is_le (compare_ℕ (suc n) n) ≡ false
past n = elim (Bool-cases (is_le (compare_ℕ (suc n) n))) [
  | inl le ↦
      let beyond : ¬ (suc n ≤ n) = omega arith in
      absurd (beyond (le_by_compare (suc n) n (to_IsLe _ le)))
  | inr other ↦ other
]

len-parts : (u t v : String) → len (str_append u (str_append t v)) ≡ len u + (len t + len v)
len-parts u t v = len-append u (str_append t v) ∙ ap (λ k. len u + k) (len-append t v)

find?-hit :
    (u t v : String)
    → find (str_append u (str_append t v)) t ≡ len u
    → find? (str_append u (str_append t v)) t ≡ some (len u)
find?-hit u t v at =
    rw (at, at_most (len u) (len (str_append u (str_append t v))) (omega (arith, len-parts u t v)))

find?-miss : (s t : String) → find s t ≡ suc (len s) → find? s t ≡ none
find?-miss s t miss = rw (miss, past (len s))

after_hit :
    (u t v : String)
    → slice (str_append u (str_append t v)) (len u + len t) (len (str_append u (str_append t v)))
      ≡ v
after_hit u t v =
    let whole : str_append u (str_append t v) ≡ str_append (str_append u t) (str_append v "") =
      sym (Text.append_assoc u t v) ∙ ap (str_append (str_append u t)) (sym (Text.append-nil v)) in
    let from : len u + len t ≡ len (str_append u t) = sym (len-append u t) in
    let to : len (str_append u (str_append t v)) ≡ len (str_append u t) + len v =
      omega (arith, len-parts u t v, len-append u t) in
    (λ i. slice (whole i) (from i) (to i)) ∙ slice-append_middle (str_append u t) v ""

replace_on-hit :
    (fuel : ℕ) (u t v to : String)
    → find (str_append u (str_append t v)) t ≡ len u
    → replace_on (suc fuel) t to (str_append u (str_append t v))
      ≡ str_append u (str_append to (replace_on fuel t to v))
unfolding replace_on
replace_on-hit fuel u t v to at =
    rw (replace_on, find?-hit u t v at, slice-append_left u (str_append t v), after_hit u t v)

replace_on-miss : (fuel : ℕ) (s t to : String) → find s t ≡ suc (len s) → replace_on fuel t to s ≡ s
unfolding replace_on
replace_on-miss zero s t to miss = refl
replace_on-miss (suc fuel) s t to miss = rw (replace_on, find?-miss s t miss)

short-misses : (s t : String) → len s < len t → find s t ≡ suc (len s)
short-misses s t short = elim (find_cases s t) [
  | inr miss ↦ miss
  | inl (u, v, parts, at) ↦
      let whole : len s ≡ len u + (len t + len v) = ap len parts ∙ len-parts u t v in
      let long : ¬ (len s < len t) = omega arith in absurd (long short)
]

find-parts :
    (s u t v : String)
    → s ≡ str_append u (str_append t v)
    → find s t ≡ len u
    → find (str_append u (str_append t v)) t ≡ len u
find-parts s u t v parts at = ap (λ w. find w t) (sym parts) ∙ at

-- As much fuel as the text has bytes is enough: with more, `replace_on` gives the same.
replace_on-fuel :
    (n m : ℕ) (t to s : String)
    → 0 < len t
    → len s ≤ n
    → len s ≤ m
    → replace_on n t to s ≡ replace_on m t to s
replace_on-fuel zero m t to s pos hn hm =
    let miss : find s t ≡ suc (len s) = short-misses s t (omega arith) in
    replace_on-miss zero s t to miss ∙ sym (replace_on-miss m s t to miss)
replace_on-fuel (suc n) zero t to s pos hn hm =
    let miss : find s t ≡ suc (len s) = short-misses s t (omega arith) in
    replace_on-miss (suc n) s t to miss ∙ sym (replace_on-miss zero s t to miss)
replace_on-fuel (suc n) (suc m) t to s pos hn hm = elim (find_cases s t) [
  | inr miss ↦ replace_on-miss (suc n) s t to miss ∙ sym (replace_on-miss (suc m) s t to miss)
  | inl (u, v, parts, at) ↦
      let whole : len s ≡ len u + (len t + len v) = ap len parts ∙ len-parts u t v in
      let found : find (str_append u (str_append t v)) t ≡ len u = find-parts s u t v parts at in
      let rest : replace_on n t to v ≡ replace_on m t to v =
        replace_on-fuel n m t to v pos (omega arith) (omega arith) in
      subst (λ w. replace_on (suc n) t to w ≡ replace_on (suc m) t to w) (sym parts)
        (replace_on-hit n u t v to found
          ∙ ap (λ w. str_append u (str_append to w)) rest
          ∙ sym (replace_on-hit m u t v to found))
]

-- `replace` puts `to` where `from` is first found, and goes on behind it; where it is not found the
-- text stays as it is.
replace-find :
    (s t to : String)
    → 0 < len t
    → ((u : String) × (v : String) × (s ≡ str_append u (str_append t v))
        × (find s t ≡ len u)
        × (replace t to s ≡ str_append u (str_append to (replace t to v))))
      ⊎ ((find? s t ≡ none) × (replace t to s ≡ s))
replace-find s t to pos = elim (find_cases s t) [
  | inr miss ↦ inr (find?-miss s t miss, replace_on-miss (len s) s t to miss)
  | inl (u, v, parts, at) ↦
      let whole : len s ≡ len u + (len t + len v) = ap len parts ∙ len-parts u t v in
      let found : find (str_append u (str_append t v)) t ≡ len u = find-parts s u t v parts at in
      let more : replace t to s ≡ replace_on (suc (len s)) t to s =
        replace_on-fuel (len s) (suc (len s)) t to s pos (omega arith) (omega arith) in
      let less : replace_on (len s) t to v ≡ replace t to v =
        replace_on-fuel (len s) (len v) t to v pos (omega arith) (omega arith) in
      inl (
        u,
        v,
        parts,
        at,
        more
            ∙ ap (replace_on (suc (len s)) t to) parts
            ∙ replace_on-hit (len s) u t v to found
            ∙ ap (λ w. str_append u (str_append to w)) less,
      )
]
