-- ===== src/Tools/Build/Tests.antt =====
-- The listing of cargo-axplat/build.rs on a folder like that of the template.
use Prim.Native.String.{String, ◌++◌ as str_append}
use text.Mathlib.Text.{◌==◌ as str_eq}
use text.Mathlib.TextEquality.{eq_iff}
use axplat_crates.Prelude.{[], ◌∷◌, map, ok, err, false, true, ◌≡◌, ◌≢◌, refl}
use axplat_crates.Tools.Build.{
  Folder, done, file, dir, not_unicode, unreadable, invalid_data, get_files_recursively, main_lines,
}
use axplat_crates.Tools.Build.Paths.{get_files_recursively-paths, IsReadable, slashed, paths}

abbrev template_dir : Folder
template_dir =
    file "_Cargo.toml" (dir "src" (file "lib.rs" (file "mem.rs" done)) (file "build.rs" done))

abbrev join : String → String → String
join a b = str_append a (str_append "/" b)

get_files_recursively_run :
    get_files_recursively template_dir ""
    ≡ ok ("_Cargo.toml" ∷ "src/lib.rs" ∷ "src/mem.rs" ∷ "build.rs" ∷ [])
unfolding get_files_recursively
get_files_recursively_run = refl

get_files_recursively_fails :
    get_files_recursively (dir "src" (file "lib.rs" (not_unicode done)) unreadable) ""
    ≡ err invalid_data
unfolding get_files_recursively
get_files_recursively_fails = refl

main_lines_run :
    main_lines join "template" (file "_Cargo.toml" (dir "src" (file "lib.rs" done) done))
    ≡ ok (
        "pub const TEMPLATE: &[(&str, &str)] = &["
        ∷ "    (\"Cargo.toml\", include_str!(r#\"template/_Cargo.toml\"#)),"
        ∷ "    (\"src/lib.rs\", include_str!(r#\"template/src/lib.rs\"#))," ∷ "];" ∷ [])
unfolding main_lines get_files_recursively
main_lines_run = refl

named : (s : String) → str_eq s "" ≡ false → s ≢ ""
named s differs e = let yes : str_eq s "" ≡ true = (eq_iff s "").1 e in cc

template_dir-IsReadable : IsReadable template_dir
template_dir-IsReadable =
    (named _ refl, (named _ refl, (named _ refl, (named _ refl, tt)), (named _ refl, tt)))

get_files_recursively-paths_example :
    get_files_recursively template_dir "" ≡ ok (map slashed (paths template_dir))
get_files_recursively-paths_example =
    get_files_recursively-paths template_dir template_dir-IsReadable
