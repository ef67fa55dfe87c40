-- ===== src/Tools/Template.antt =====
-- `cargo axplat new` fills a package from the template: cargo-axplat/src/new.rs. The file system and the
-- TOML documents are parameters, and so is the template, which a build script lists.
pub mod Written
mod Tests
use Prim.Native.String.{String, ◌++◌ as str_append, len, slice}
use text.Mathlib.Text.{◌==◌ as str_eq, find?}
use axplat_crates.Prelude.{
  ℕ, zero, suc, ◌+◌, Option, none, some, List, [], ◌∷◌, ◌++◌, if◌then◌else◌, Result, ok, err,
  and_then, Exec, returns, panics, undefined, ◌>>=◌,
}
use axplat_crates.Prelude.Replace.{replace, replace_on}
use axplat_crates.Tools.Commands.{CommandNew, Output, Process, run_cargo_command, new_args}

pub record Env : Type 1 where
  pub FileSystem : Type 0
  pub IoError : Type 0
  pub Document : Type 0
  pub Item : Type 0
  pub Table : Type 0
  pub join : String → String → String
  pub read_to_string : String → FileSystem → Result String IoError
  pub write : (path content : String) → FileSystem → Result FileSystem IoError
  pub parse : String → Option Document
  pub to_string : Document → String
  pub index : Document → String → Exec Item
  pub as_table : Item → Option Table
  pub index_table : Table → String → Exec Item
  pub as_str : Item → Option String
  -- An inline table with the one key `path`.
  pub path_table : String → Item
  pub set_index : Document → String → Item → Document
  pub set_index_in : Document → (table key : String) → Item → Exec Document

abbrev pub unwrap {ℓ} : {A : Type ℓ} → Option A → Exec A
unwrap none = panics
unwrap (some a) = returns a

-- `?` on a `Result` after a call that may panic.
abbrev pub try_ok {ℓ κ μ} :
    {A : Type ℓ} {B : Type κ} {E : Type μ}
    → Result A E
    → (A → Exec (Result B E))
    → Exec (Result B E)
try_ok (ok a) f = f a
try_ok (err e) f = returns (err e)

module _ (env : Env) where
  open env use {
    FileSystem, IoError, Document, Item, Table, join, read_to_string, write, parse, to_string,
    index, as_table, index_table, as_str, path_table, set_index, set_index_in,
  }

  pub apply_cargo_toml_template :
      (orig new : Document) (axplat_path : Option String) → Exec Document
  apply_cargo_toml_template orig new axplat_path = do
    dependencies ← index new "dependencies"
    features ← index new "features"
    let orig_1 = set_index (set_index orig "dependencies" dependencies) "features" features
    elim axplat_path [
      | none ↦ returns orig_1
      | some path ↦ set_index_in orig_1 "dependencies" "axplat" (path_table path)
    ]

  pub package_name : Document → Exec String
  package_name orig = do
    item ← index orig "package"
    table ← unwrap (as_table item)
    name ← index_table table "name"
    unwrap (as_str name)

  -- What a file of the template becomes, with the document of `Cargo.toml` before and after.
  pub render :
      (arch pkg : String) (axplat_path : Option String)
      → Document
      → (name content : String) → Exec (Document × String)
  unfolding apply_cargo_toml_template replace_on
  render arch pkg axplat_path orig name content =
      if str_eq name "Cargo.toml"
      then (do
        new ← unwrap (parse content)
        orig' ← apply_cargo_toml_template orig new axplat_path
        returns (orig', to_string orig'))
      else if str_eq name "axconfig.toml"
      then returns (orig, replace "<PACKAGE>" pkg (replace "<ARCH>" arch content))
      else returns (orig, content)

  -- `for (name, content) in crate::template::TEMPLATE`
  pub apply_files :
      (path arch pkg : String) (axplat_path : Option String)
      → List (String × String)
      → Document
      → FileSystem
      → Exec (Result FileSystem IoError)
  unfolding render
  apply_files path arch pkg axplat_path [] orig fs = returns (ok fs)
  apply_files path arch pkg axplat_path ((name, content) ∷ files) orig fs =
      render arch pkg axplat_path orig name content >>= λ rendered.
      try_ok (write (join path name) rendered.1 fs)
        λ fs'. apply_files path arch pkg axplat_path files rendered.0 fs'

  pub apply_template :
      (template : List (String × String)) (path arch : String) (axplat_path : Option String)
      → FileSystem
      → Exec (Result FileSystem IoError)
  unfolding package_name apply_files
  apply_template template path arch axplat_path fs =
      try_ok (read_to_string (join path "Cargo.toml") fs) λ cargo_toml.
        unwrap (parse cargo_toml) >>= λ orig.
        package_name orig >>= λ pkg. apply_files path arch pkg axplat_path template orig fs

  abbrev pub unwrap_process : Exec (Result FileSystem IoError) → Process FileSystem
  unwrap_process (returns (ok fs)) = Process.goes_on fs
  unwrap_process (returns (err e)) = Process.panics
  unwrap_process panics = Process.panics
  unwrap_process undefined = Process.undefined

  -- `created` is the file system once `cargo new` has run.
  pub new_platform :
      (cargo : List String → Option Output) (created : FileSystem)
      (template : List (String × String))
      → CommandNew
      → Process FileSystem
  unfolding apply_template
  new_platform cargo created template a = elim (run_cargo_command cargo "new" (new_args a)) [
    | Process.goes_on stdout ↦
        unwrap_process (apply_template template a.path a.arch a.axplat_path created)
    | Process.exits code ↦ Process.exits code
    | Process.panics ↦ Process.panics
    | Process.undefined ↦ Process.undefined
  ]
