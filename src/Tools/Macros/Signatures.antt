-- ===== src/Tools/Macros/Signatures.antt =====
-- Which functions the attributes of axplat-macros/src/lib.rs take.
use Prim.Native.String.{String}
use text.Mathlib.Text.{◌==◌ as str_eq}
use text.Mathlib.TextEquality.{eq_iff}
use axplat_crates.Prelude.{
  ℕ, zero, suc, ◌≡◌, ◌≢◌, refl, ap, ap₂, subst, eq→==, ==→eq, Bool, true, false, List, [], ◌∷◌, All,
  length, ◌==◌, ok, Bool-cases, inl, inr,
}
use axplat_crates.Tools.Macros.{
  ReturnType, default, type, FnArg, receiver, typed, Qualifiers, ItemFn, compile_error, exported,
  returns_something, check_args, common_main, main, secondary_main, main_msg, secondary_msg,
}

-- A function that is not a method has no `self`.
abbrev pub IsTyped : FnArg → Type 0
IsTyped receiver = ⊥
IsTyped (typed _) = Unit

abbrev pub usizes : ℕ → List FnArg
usizes zero = []
usizes (suc n) = typed "usize" ∷ usizes n

-- The types that the signature is asked to have; its qualifiers are not looked at.
abbrev pub Fits : (arg_num : ℕ) → ItemFn → Type 0
Fits arg_num f = (f.output ≡ type "!") × (f.inputs ≡ usizes arg_num)

check-usizes :
    (args : List FnArg) (e : Bool)
    → All IsTyped args
    → check_args args e ≡ false
    → (e ≡ false) × (args ≡ usizes (length args))
check-usizes [] e t h = (h, refl)
check-usizes (receiver ∷ args) e t h = absurd (t.0)
check-usizes (typed ty ∷ args) e t h = elim (Bool-cases (str_eq ty "usize")) [
  | inl same ↦
      let (q, rest) = check-usizes args e t.1 (rw same at h) in
      (q, ap₂ (λ x xs. typed x ∷ xs) ((eq_iff ty "usize").0 same) rest)
  | inr other ↦ cc (rw other at h)
]

usizes-check : (n : ℕ) (e : Bool) → check_args (usizes n) e ≡ e
usizes-check zero e = refl
usizes-check (suc n) e = usizes-check n e

length-usizes : (n : ℕ) → length (usizes n) ≡ n
length-usizes zero = refl
length-usizes (suc n) = ap suc (length-usizes n)

returns_something-never : (r : ReturnType) → returns_something r ≡ false → r ≡ type "!"
returns_something-never default h = cc
returns_something-never (type ty) h = elim (Bool-cases (str_eq ty "!")) [
  | inl same ↦ ap type ((eq_iff ty "!").0 same)
  | inr other ↦ cc (rw other at h)
]

accepted :
    (f : ItemFn) (n : ℕ) (name msg : String)
    → Fits n f
    → common_main (ok f) n name msg ≡ exported name f
unfolding common_main
accepted f n name msg (out, args) =
    rw (out, args, length-usizes n, usizes-check n (returns_something (type "!")), eq→== n n refl)

refused :
    (f : ItemFn) (n : ℕ) (name msg : String)
    → All IsTyped f.inputs
    → ¬ Fits n f
    → common_main (ok f) n name msg ≡ compile_error msg
unfolding common_main
refused f n name msg t unfit = elim (Bool-cases (length f.inputs == n)) [
  | inr other ↦ rw other
  | inl same ↦ elim (Bool-cases (check_args f.inputs (returns_something f.output))) [
    | inl bad ↦ rw (same, bad)
    | inr good ↦
        let (never, all) = check-usizes f.inputs (returns_something f.output) t good in
        absurd (
          unfit (
            returns_something-never f.output never,
            subst (λ k. f.inputs ≡ usizes k) (==→eq (length f.inputs) n same) all,
          ))
  ]
]

-- With an empty attribute, of the functions without `self` exactly those with two arguments of type
-- `usize` and the return type `!` are exported by `main` under the name that the platforms call, and
-- those with one by `secondary_main`; every other one is refused with the message that says so.
-- Nothing else of the function plays a part: with any other qualifiers, generic parameters or ABI
-- it fares the same, so one that is `async`, say, is exported, although it is not of the type that
-- the message asks for. With an attribute that is not empty nothing is exported.
pub main-signatures :
    (f : ItemFn) (q : Qualifiers)
    → All IsTyped f.inputs
    → let g = record f { qualifiers = q } in
      (Fits 2 f → main true (ok g) ≡ exported "__axplat_main" g)
      × (¬ Fits 2 f → main true (ok g) ≡ compile_error main_msg)
      × (Fits 1 f → secondary_main true (ok g) ≡ exported "__axplat_secondary_main" g)
      × (¬ Fits 1 f → secondary_main true (ok g) ≡ compile_error secondary_msg)
      × ((name : String)
          → (main false (ok g) ≢ exported name g) × (secondary_main false (ok g) ≢ exported name g))
unfolding main secondary_main
main-signatures f q t =
    let g : ItemFn = record f { qualifiers = q } in
    (
      accepted g 2 "__axplat_main" main_msg,
      refused g 2 "__axplat_main" main_msg t,
      accepted g 1 "__axplat_secondary_main" secondary_msg,
      refused g 1 "__axplat_secondary_main" secondary_msg t,
      λ name. (λ e. cc, λ e. cc),
    )
