-- ===== src/Tools/Info/Select.antt =====
-- Which package cargo-axplat/src/info.rs reports, and what it prints.
use Prim.Native.String.{String}
use text.Mathlib.Text.{◌==◌ as str_eq}
use text.Mathlib.TextEquality.{eq_iff}
use axplat_crates.Prelude.{
  ◌≡◌, ◌≢◌, refl, sym, subst, false, some, List, [], ◌∷◌, ◌++◌, All, ok, err, returns, Bool-cases,
  inl, inr,
}
use axplat_crates.Tools.Info.{
  CommandInfo, Package, package_not_found, Env, exits, new, find_package, from, parse_config,
  read_config, platform_info, report, source_of,
}

module _ (env : Env) where
  open env use {Document, parent, join, read_to_string, parse, index, as_str}

  abbrev pub IsOther : String → Package → Type 0
  IsOther name p = p.name ≢ name

  not_same : (p : Package) (name : String) → p.name ≢ name → str_eq p.name name ≡ false
  not_same p name ne = elim (Bool-cases (str_eq p.name name)) [
    | inl same ↦ absurd (ne ((eq_iff p.name name).0 same))
    | inr other ↦ other
  ]

  find_package-first :
      (before after : List Package) (p : Package)
      → All (IsOther p.name) before
      → find_package env p.name (before ++ p ∷ after) ≡ new env p
  unfolding find_package
  find_package-first [] after p h = rw ((eq_iff p.name p.name).1 refl)
  find_package-first (q ∷ before) after p h =
      rw (not_same q p.name h.0) (find_package-first before after p h.1)

  find_package-none :
      (packages : List Package) (name : String)
      → All (IsOther name) packages
      → find_package env name packages ≡ returns (err (package_not_found name))
  unfolding find_package
  find_package-none [] name h = refl
  find_package-none (q ∷ qs) name h = rw (not_same q name h.0) (find_package-none qs name h.1)

  -- The document holds a string at the key.
  abbrev pub Holds : Document → String → String → Type 0
  Holds doc key value =
      (item : env.Item) × (index doc key ≡ returns item) × (as_str item ≡ some value)

  module _ (path toml : String) (doc : Document) (platform arch : String)
      (readable : read_to_string path ≡ ok toml) (parsed : parse toml ≡ some doc)
      (at_platform : Holds doc "platform" platform) (at_arch : Holds doc "arch" arch) where
    read_config_run : read_config env toml ≡ returns (some (platform, arch))
    unfolding read_config
    read_config_run = rw (parsed, at_platform.1, at_platform.2, at_arch.1, at_arch.2)

    parse_config_run : parse_config env path ≡ returns (ok (platform, arch))
    unfolding parse_config
    parse_config_run = rw (readable, parse_config, read_config_run)

  new_run :
      (p : Package) (path root platform arch : String)
      → p.manifest_path ≡ ok path
      → parent path ≡ some root
      → parse_config env (join root "axconfig.toml") ≡ returns (ok (platform, arch))
      → new env p
        ≡ returns (
            ok (record {
              platform = platform;
              arch = arch;
              version = p.version;
              source = source_of env p;
              config_path = join root "axconfig.toml";
            }))
  unfolding new
  new_run p path root platform arch mp pr run = rw (mp, pr, run)

  -- `info` reports the first package of the asked name: where its manifest lies in a folder whose
  -- `axconfig.toml` can be read and holds the texts `platform` and `arch`, it prints the asked
  -- fields of this package, in a fixed order, or all five with their names if none is asked for.
  platform_info-first :
      (before after : List Package) (p : Package) (args : CommandInfo) (path root toml : String)
      (doc : Document) (platform arch : String)
      → p.name ≡ args.package_name
      → All (IsOther args.package_name) before
      → p.manifest_path ≡ ok path
      → parent path ≡ some root
      → read_to_string (join root "axconfig.toml") ≡ ok toml
      → parse toml ≡ some doc
      → Holds doc "platform" platform
      → Holds doc "arch" arch
      → platform_info env (ok (before ++ p ∷ after)) args
        ≡ returns (
            report env args (
              ok (record {
                platform = platform;
                arch = arch;
                version = p.version;
                source = source_of env p;
                config_path = join root "axconfig.toml";
              })))
  unfolding platform_info from
  platform_info-first before after p args path root toml doc platform arch same others mp pr rd ps
        at_platform at_arch =
      rw (
        ← same,
        find_package-first before after p (subst (λ n. All (IsOther n) before) (sym same) others),
        new_run p path root platform arch mp pr (
            parse_config_run (join root "axconfig.toml") toml doc platform arch rd ps at_platform
              at_arch),
      )

  -- Where no package has the asked name, `info` says so and ends with code 1.
  platform_info-absent :
      (packages : List Package) (args : CommandInfo)
      → All (IsOther args.package_name) packages
      → platform_info env (ok packages) args
        ≡ returns (exits 1 (package_not_found args.package_name))
  unfolding platform_info from
  platform_info-absent packages args h = rw (find_package-none packages args.package_name h)
