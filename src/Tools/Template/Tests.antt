-- ===== src/Tools/Template/Tests.antt =====
-- `apply_template` of cargo-axplat/src/new.rs on a package that `cargo new` has made, with documents
-- that are lists of keys and values, and a file system that is a function from paths to texts.
use Prim.Native.String.{String, ◌++◌ as str_append}
use text.Mathlib.Text.{◌==◌ as str_eq}
use text.Mathlib.TextEquality.{eq_iff}
use axplat_crates.Prelude.{
  true, false, Option, none, some, List, [], ◌∷◌, if◌then◌else◌, Result, ok, err, Exec, returns,
  panics, ◌≡◌, ◌≢◌, refl, sym, ap, ◌∙◌, Bool-cases, inl, inr,
}
use axplat_crates.Prelude.Replace.{replace, replace_on}
use axplat_crates.Tools.Template.{Env, package_name, apply_template, apply_files, render}
use axplat_crates.Tools.Template.Written.{Keeps, IsApart, AreTexts, Ends, apply_template-written}

replace_run :
    replace "<ARCH>" "riscv64" "arch = \"<ARCH>\" # <ARCH>" ≡ "arch = \"riscv64\" # riscv64"
unfolding replace_on
replace_run = refl

-- The documents of these tests hold the name of a package, its dependencies and its features.
record Manifest : Type 0 where
  name : String
  dependencies : String
  features : String

abbrev FileSystem : Type 0
FileSystem = String → Result String String

abbrev no_file : FileSystem
no_file path = err path

abbrev write : (path content : String) → FileSystem → FileSystem
write path content fs other = if str_eq other path then ok content else fs other

abbrev index : Manifest → String → Exec String
index m key =
    if str_eq key "package"
    then returns m.name
    else if str_eq key "dependencies"
    then returns m.dependencies
    else if str_eq key "features"
    then returns m.features
    else panics

abbrev set_index : Manifest → String → String → Manifest
set_index m key value =
    if str_eq key "dependencies"
    then record m { dependencies = value }
    else if str_eq key "features"
    then record m { features = value }
    else m

abbrev parse : String → Option Manifest
parse text =
    if str_eq text "made by cargo"
    then some (record { name = "my-plat"; dependencies = ""; features = "" })
    else if str_eq text "of the template"
    then some (record { name = "example"; dependencies = "axplat"; features = "irq" })
    else none

abbrev env : Env
env = record {
  FileSystem = FileSystem;
  IoError = String;
  Document = Manifest;
  Item = String;
  Table = String;
  join = λ a b. str_append a (str_append "/" b);
  read_to_string = λ path fs. fs path;
  write =
      λ path content fs. if str_eq path "/dev/full" then err path else ok (write path content fs);
  parse = parse;
  to_string = λ m.
      str_append m.name (str_append " " (str_append m.dependencies (str_append " " m.features)));
  index = index;
  as_table = λ item. some item;
  index_table = λ table key. if str_eq key "name" then returns table else panics;
  as_str = λ item. some item;
  path_table = λ path. str_append "path " path;
  set_index = set_index;
  set_index_in =
      λ m table key item. returns (set_index m table (str_append key (str_append " " item)));
}

abbrev read_in : String → Result FileSystem String → Result String String
read_in path (ok fs) = fs path
read_in path (err e) = err e

differs : (s t : String) → s ≢ t → str_eq s t ≡ false
differs s t ne = elim (Bool-cases (str_eq s t)) [
  | inl same ↦ absurd (ne ((eq_iff s t).0 same))
  | inr other ↦ other
]

abbrev Plain : String → Type 0
Plain path = str_eq path "/dev/full" ≡ false

abbrev Same : String → String → Type 0
Same a b = a ≡ b

wrote :
    (path content : String) (fs fs' : FileSystem)
    → Plain path
    → env.write path content fs ≡ ok fs'
    → Path (Result FileSystem String) (ok (write path content fs)) (ok fs')
wrote path content fs fs' plain h = rw plain at h

env-Keeps : Keeps env Plain Same
env-Keeps = record {
  read-write = λ path content fs fs' plain h.
      let here : str_eq path path ≡ true = (eq_iff path path).1 refl in
      let kept : write path content fs path ≡ ok content = rw here in
      sym (ap (read_in path) (wrote path content fs fs' plain h)) ∙ kept;
  read-write_other = λ path content other fs fs' plain h ne.
      let kept : write path content fs other ≡ fs other = rw (differs other path ne) in
      sym (ap (read_in other) (wrote path content fs fs' plain h)) ∙ kept;
}

abbrev template : List (String × String)
template =
    ("Cargo.toml", "of the template")
    ∷ ("axconfig.toml", "arch = \"<ARCH>\" package = \"<PACKAGE>\"")
    ∷ ("src/lib.rs", "mod mem;")
    ∷ []

abbrev created : FileSystem
created = write "plat/Cargo.toml" "made by cargo" no_file

abbrev texts : List String
texts =
    "my-plat axplat path /axplat irq" ∷ "arch = \"aarch64\" package = \"my-plat\"" ∷ "mod mem;" ∷ []

abbrev package_doc : Manifest
package_doc = record { name = "my-plat"; dependencies = ""; features = "" }

unequal : (s t : String) → str_eq s t ≡ false → s ≢ t
unequal s t h e = let yes : str_eq s t ≡ true = (eq_iff s t).1 e in cc

template-IsApart : IsApart env Plain Same "plat" template
template-IsApart = (
  refl,
  (unequal _ _ refl, (unequal _ _ refl, tt)),
  (refl, (unequal _ _ refl, tt), (refl, tt, tt)),
)

texts-AreTexts : AreTexts env "aarch64" "my-plat" (some "/axplat") template package_doc texts
unfolding replace_on
texts-AreTexts =
    let merged : Manifest = record {
      name = "my-plat";
      dependencies = "axplat path /axplat";
      features = "irq";
    } in
    (
      merged,
      inl (
        refl,
        record { name = "example"; dependencies = "axplat"; features = "irq" },
        refl,
        ("axplat", "irq", refl, refl, refl),
        refl,
      ),
      (
        merged,
        inr (inl (refl, refl, refl)),
        (merged, inr (inr (unequal _ _ refl, unequal _ _ refl, refl, refl)), tt),
      ),
    )

named_run : package_name env package_doc ≡ returns "my-plat"
unfolding package_name
named_run = refl

-- A write to "/dev/full" fails.
full_run :
    apply_files env "/dev" "aarch64" "my-plat" none (("full", "text") ∷ []) package_doc created
    ≡ returns (err "/dev/full")
unfolding apply_files render
full_run = refl

apply_template-written_example :
    Ends env Plain Same "plat" template texts created
      (apply_template env template "plat" "aarch64" (some "/axplat") created)
apply_template-written_example =
    apply_template-written env Plain Same env-Keeps "plat" "aarch64" "my-plat" (some "/axplat")
      template created "made by cargo" package_doc texts refl refl named_run template-IsApart
      texts-AreTexts
