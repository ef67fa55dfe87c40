-- ===== src/Tools/Build.antt =====
-- cargo-axplat/build.rs, the build script that lists the files of the template. A folder is what
-- reading it gives.
pub mod Paths
mod Tests
use Prim.Native.String.{String, ◌++◌ as str_append}
use text.Mathlib.Text.{◌==◌ as str_eq}
use axplat_crates.Prelude.{List, [], ◌∷◌, ◌++◌, map, if◌then◌else◌, Result, ok, err, and_then}

-- `unreadable` is a folder, or an entry of it, whose reading fails, and `not_unicode` an entry whose
-- path is not UTF-8.
pub data Folder : Type 0 where
  done : Folder
  file : (name : String) → Folder → Folder
  dir : (name : String) (entries : Folder) → Folder → Folder
  not_unicode : Folder → Folder
  unreadable : Folder

pub data ErrorKind : Type 0 where
  invalid_data : ErrorKind
  of_reading : ErrorKind

abbrev pub full_name : (path_name prefix : String) → String
full_name path_name prefix =
    if str_eq prefix "" then path_name else str_append prefix (str_append "/" path_name)

pub get_files_recursively : Folder → (prefix : String) → Result (List String) ErrorKind
get_files_recursively done prefix = ok []
get_files_recursively (file name rest) prefix =
    and_then (get_files_recursively rest prefix) λ files. ok (full_name name prefix ∷ files)
get_files_recursively (dir name entries rest) prefix =
    and_then (get_files_recursively entries (full_name name prefix))
      λ inner. and_then (get_files_recursively rest prefix) λ files. ok (inner ++ files)
get_files_recursively (not_unicode rest) prefix = err invalid_data
get_files_recursively unreadable prefix = err of_reading

-- The name in the template and the file that it includes; `join` is `Utf8Path::join`.
abbrev pub template_entry :
    (join : String → String → String) (src_dir name : String) → String × String
template_entry join src_dir name =
    if str_eq name "_Cargo.toml"
    then ("Cargo.toml", join src_dir "_Cargo.toml")
    else (name, join src_dir name)

abbrev pub write_entry : String × String → String
write_entry (name, include_path) =
    str_append "    (\""
      (str_append name (str_append "\", include_str!(r#\"" (str_append include_path "\"#)),")))

-- The lines of `template.rs`.
pub main_lines :
    (join : String → String → String) (src_dir : String) → Folder → Result (List String) ErrorKind
unfolding get_files_recursively
main_lines join src_dir template = and_then (get_files_recursively template "") λ files. ok (
    "pub const TEMPLATE: &[(&str, &str)] = &["
    ∷ (map (λ name. write_entry (template_entry join src_dir name)) files ++ "];" ∷ []))
