-- ===== src/Tools/Macros.antt =====
-- The attributes `main` and `secondary_main` of axplat-macros/src/lib.rs. A type is the text of its
-- tokens, as `quote!` prints it. A function is what `syn` gives of it: its qualifiers, its return
-- type, its arguments, of which a `self` has no type to test, and its body.
pub mod Signatures
mod Tests
use Prim.Native.String.{String}
use text.Mathlib.Text.{◌==◌ as str_eq}
use axplat_crates.Prelude.{
  ℕ, Bool, true, false, Option, not, ◌||◌, List, [], ◌∷◌, length, ◌==◌, if◌then◌else◌, Result, ok,
  err,
}

pub data ReturnType : Type 0 where
  default : ReturnType
  type : (tokens : String) → ReturnType

pub data FnArg : Type 0 where
  receiver : FnArg
  typed : (tokens : String) → FnArg

-- What comes before `fn`, and the generic parameters and the variadic argument with it.
pub record Qualifiers : Type 0 where
  pub constness : Bool
  pub asyncness : Bool
  pub unsafety : Bool
  pub abi : Option String
  pub generics : String
  pub variadic : Bool

pub record ItemFn : Type 0 where
  pub qualifiers : Qualifiers
  pub output : ReturnType
  pub inputs : List FnArg
  pub body : String

pub data Expansion : Type 0 where
  compile_error : (msg : String) → Expansion
  exported : (export_name : String) (main : ItemFn) → Expansion

abbrev pub returns_something : ReturnType → Bool
returns_something default = true
returns_something (type ty) = not (str_eq ty "!")

-- `for arg in args.iter()`, which stops at the first type that is not `usize`.
abbrev pub check_args : List FnArg → Bool → Bool
check_args [] e = e
check_args (receiver ∷ args) e = check_args args e
check_args (typed ty ∷ args) e = if not (str_eq ty "usize") then true else check_args args e

-- `item` is what the parser of `syn` makes of the item, or its error.
pub common_main :
    (item : Result ItemFn String) (arg_num : ℕ) (export_name err_msg : String) → Expansion
common_main (err e) arg_num export_name err_msg = compile_error e
common_main (ok main) arg_num export_name err_msg =
    let e = check_args main.inputs (returns_something main.output) in
    let e' = if not (length main.inputs == arg_num) then true else e in
    if e' then compile_error err_msg else exported export_name main

abbrev pub main_msg : String
main_msg = "expect a function with type `fn(cpu_id: usize, arg: usize) -> !`"

abbrev pub secondary_msg : String
secondary_msg = "expect a function with type `fn(cpu_id: usize) -> !`"

pub main : (attr_is_empty : Bool) → Result ItemFn String → Expansion
unfolding common_main
main attr_is_empty item =
    if not attr_is_empty
    then compile_error "expect an empty attribute or `#[axplat::main]`"
    else common_main item 2 "__axplat_main" main_msg

pub secondary_main : (attr_is_empty : Bool) → Result ItemFn String → Expansion
unfolding common_main
secondary_main attr_is_empty item =
    if not attr_is_empty
    then compile_error "expect an empty attribute or `#[axplat::secondary_main]`"
    else common_main item 1 "__axplat_secondary_main" secondary_msg
