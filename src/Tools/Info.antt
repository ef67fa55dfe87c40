-- ===== src/Tools/Info.antt =====
-- `cargo axplat info`: cargo-axplat/src/info.rs. What `cargo metadata`, the file system and the TOML
-- parser give is a parameter: `parse` and `as_str` return nothing where the text is no TOML or the
-- value no string, and indexing a document may panic.
pub mod Select
mod Tests
use Prim.Native.String.{String, ◌++◌ as str_append}
use text.Mathlib.Text.{◌==◌ as str_eq}
use axplat_crates.Prelude.{
  ℕ, Bool, true, false, ◌||◌, Option, none, some, List, [], ◌∷◌, ◌++◌, if◌then◌else◌, Result, ok,
  err, and_then, Exec, returns, panics, ◌>>=◌,
}

pub record CommandInfo : Type 0 where
  pub package_name : String
  pub plat : Bool
  pub arch : Bool
  pub version : Bool
  pub source : Bool
  pub config_path : Bool

pub data IoError : Type 0 where
  not_found : IoError
  other : (msg : String) → IoError

pub data PlatformInfoErr : Type 0 where
  metadata : (msg : String) → PlatformInfoErr
  package_not_found : String → PlatformInfoErr
  no_config : String → PlatformInfoErr
  config_io : IoError → String → PlatformInfoErr
  invalid_config : String → PlatformInfoErr
  invalid_manifest_path : String → PlatformInfoErr

-- A manifest path that is not UTF-8 is an error with its lossy text.
pub record Package : Type 0 where
  pub name : String
  pub version : String
  pub source : Option String
  pub id : String
  pub manifest_path : Result String String

pub record PlatformInfo : Type 0 where
  pub platform : String
  pub arch : String
  pub version : String
  pub source : String
  pub config_path : String

pub record Env : Type 1 where
  pub Document : Type 0
  pub Item : Type 0
  pub parent : String → Option String
  pub join : String → String → String
  pub read_to_string : String → Result String IoError
  pub parse : String → Option Document
  pub index : Document → String → Exec Item
  pub as_str : Item → Option String

-- `?` on an `Option` after a call that may panic.
abbrev pub try_some {ℓ} :
    {A : Type ℓ} {B : Type ℓ} → Option A → (A → Exec (Option B)) → Exec (Option B)
try_some none f = returns none
try_some (some a) f = f a

-- What the program prints, and with which code it ends.
pub data Outcome : Type 0 where
  printed : (lines : List String) → Outcome
  exits : (code : ℕ) (error : PlatformInfoErr) → Outcome

module _ (env : Env) where
  open env use {Document, Item, parent, join, read_to_string, parse, index, as_str}

  pub read_config : String → Exec (Option (String × String))
  read_config toml = try_some (parse toml) λ config. index config "platform" >>= λ platform.
      try_some (as_str platform) λ plat_name. index config "arch" >>= λ item.
      try_some (as_str item) λ arch. returns (some (plat_name, arch))

  abbrev pub ok_or : String → Option (String × String) → Result (String × String) PlatformInfoErr
  ok_or config_path none = err (invalid_config config_path)
  ok_or config_path (some v) = ok v

  pub parse_config : String → Exec (Result (String × String) PlatformInfoErr)
  unfolding read_config
  parse_config config_path = elim (read_to_string config_path) [
    | ok toml ↦ (read_config toml >>= λ v. returns (ok_or config_path v))
    | err not_found ↦ returns (err (no_config config_path))
    | err (other e) ↦ returns (err (config_io (other e) config_path))
  ]

  abbrev pub source_of : Package → String
  source_of p = elim p.source [ some src ↦ src | none ↦ p.id ]

  abbrev pub info_at :
      Package
      → String
      → Result (String × String) PlatformInfoErr
      → Result PlatformInfo PlatformInfoErr
  info_at p config_path (err e) = err e
  info_at p config_path (ok (platform, arch)) = ok (record {
    platform = platform;
    arch = arch;
    version = p.version;
    source = source_of p;
    config_path = config_path;
  })

  abbrev pub new_in : Package → String → Option String → Exec (Result PlatformInfo PlatformInfoErr)
  new_in p manifest_path none = returns (err (invalid_manifest_path manifest_path))
  new_in p manifest_path (some root_dir) =
      let config_path = join root_dir "axconfig.toml" in
      parse_config config_path >>= λ v. returns (info_at p config_path v)

  -- `PlatformInfo::new`
  pub new : Package → Exec (Result PlatformInfo PlatformInfoErr)
  unfolding parse_config
  new p = elim p.manifest_path [
    | err lossy ↦ returns (err (invalid_manifest_path lossy))
    | ok manifest_path ↦ new_in p manifest_path (parent manifest_path)
  ]

  -- `for p in metadata.packages`
  pub find_package : String → List Package → Exec (Result PlatformInfo PlatformInfoErr)
  unfolding new
  find_package name [] = returns (err (package_not_found name))
  find_package name (p ∷ ps) = if str_eq p.name name then new p else find_package name ps

  -- `PlatformInfo::from`, with what `cargo metadata` answers.
  pub from : Result (List Package) String → CommandInfo → Exec (Result PlatformInfo PlatformInfoErr)
  unfolding find_package
  from (err e) args = returns (err (metadata e))
  from (ok packages) args = find_package args.package_name packages

  abbrev pub when : Bool → String → List String
  when b line = if b then line ∷ [] else []

  pub display : CommandInfo → PlatformInfo → List String
  display args info =
      when args.plat info.platform
      ++ when args.arch info.arch
      ++ when args.version info.version
      ++ when args.source info.source
      ++ when args.config_path info.config_path

  pub display_all : PlatformInfo → List String
  display_all info =
      (str_append "platform: " info.platform)
      ∷ (str_append "arch: " info.arch)
      ∷ (str_append "version: " info.version)
      ∷ (str_append "source: " info.source)
      ∷ (str_append "config_path: " info.config_path)
      ∷ []

  abbrev pub report : CommandInfo → Result PlatformInfo PlatformInfoErr → Outcome
  report args (err e) = exits 1 e
  report args (ok info) =
      if args.plat || args.arch || args.version || args.source || args.config_path
      then printed (display args info)
      else printed (display_all info)

  pub platform_info : Result (List Package) String → CommandInfo → Exec Outcome
  unfolding from display display_all
  platform_info answer args = do info ← from answer args; returns (report args info)
