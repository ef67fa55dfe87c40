-- ===== src/Tools/Commands/Options.antt =====
-- What the command line that cargo-axplat/src/add.rs makes says.
use Prim.Native.String.{String}
use text.Mathlib.Text.{◌==◌ as str_eq}
use Prim.Native.Char.{code}
use axplat_crates.Prelude.{
  ◌==◌, append_assoc, ◌≡◌, refl, ◌∙◌, Bool, true, false, Option, none, some, List, [], ◌∷◌, ◌++◌,
  append-nil, All, if◌then◌else◌,
}
use axplat_crates.Tools.Commands.{CommandAdd, flagged, add_options, add_args}

-- How `cargo add` reads its command line: the packages up to the first word that starts with a dash,
-- and then flags with a value each, the last one of a flag counting.
abbrev pub set_option : String → String → CommandAdd → Option CommandAdd
set_option flag v a =
    if str_eq flag "--git"
    then some (record a { git = some v })
    else if str_eq flag "--path"
    then some (record a { path = some v })
    else if str_eq flag "-p"
    then some (record a { package_spec = some v })
    else if str_eq flag "--manifest-path"
    then some (record a { manifest_path = some v })
    else if str_eq flag "--branch"
    then some (record a { branch = some v })
    else if str_eq flag "--tag"
    then some (record a { tag = some v })
    else if str_eq flag "--rev"
    then some (record a { rev = some v })
    else if str_eq flag "-F"
    then some (record a { features = some v })
    else if str_eq flag "--target"
    then some (record a { target = some v })
    else none

pub read_options : List String → CommandAdd → Option CommandAdd
read_options [] a = some a
read_options (flag ∷ []) a = none
read_options (flag ∷ v ∷ words) a = elim (set_option flag v a) [
  | none ↦ none
  | some b ↦ read_options words b
]

abbrev pub starts_with_dash : String → Bool
starts_with_dash String.[] = false
starts_with_dash (String.◌∷◌ c s) = code c == b'-'

abbrev pub bare : List String → CommandAdd
bare ids = record {
  dep_id = ids;
  git = none;
  path = none;
  package_spec = none;
  manifest_path = none;
  branch = none;
  tag = none;
  rev = none;
  features = none;
  target = none;
}

pub read_add : List String → List String → Option CommandAdd
unfolding read_options
read_add ids [] = some (bare ids)
read_add ids (w ∷ words) =
    if starts_with_dash w
    then read_options (w ∷ words) (bare ids)
    else read_add (ids ++ w ∷ []) words

abbrev pub IsPackage : String → Type 0
IsPackage w = starts_with_dash w ≡ false

abbrev StartsDashed : List String → Type 0
StartsDashed [] = Unit
StartsDashed (w ∷ _) = starts_with_dash w ≡ true

read_add-packages :
    (ids ds rest : List String)
    → All IsPackage ds
    → read_add ids (ds ++ rest) ≡ read_add (ids ++ ds) rest
unfolding read_add
read_add-packages ids [] rest h = rw append-nil
read_add-packages ids (d ∷ ds) rest h =
    rw h.0 (read_add-packages (ids ++ d ∷ []) ds rest h.1 ∙ rw append_assoc)

read_add-options :
    (ids rest : List String) → StartsDashed rest → read_add ids rest ≡ read_options rest (bare ids)
unfolding read_add
read_add-options ids [] h = refl
read_add-options ids (w ∷ words) h = rw h

dashed :
    (flag : String) (o : Option String) (rest : List String)
    → starts_with_dash flag ≡ true
    → StartsDashed rest
    → StartsDashed (flagged flag o ++ rest)
dashed flag none rest f h = h
dashed flag (some v) rest f h = f

abbrev or_else : Option String → Option String → Option String
or_else none x = x
or_else (some v) x = some v

or_else-none : (o : Option String) → or_else o none ≡ o
or_else-none none = refl
or_else-none (some v) = refl

-- A flag sets its own field, where `put` changes that field only.
read_flagged :
    (flag : String) (put : Option String → CommandAdd → CommandAdd)
    → ((v : String) (a : CommandAdd) → set_option flag v a ≡ some (put (some v) a))
    → ((a : CommandAdd) → put none a ≡ a)
    → (o : Option String) (rest : List String) (a : CommandAdd)
    → read_options (flagged flag o ++ rest) a ≡ read_options rest (put o a)
unfolding read_options
read_flagged flag put sets keeps none rest a = rw (keeps a)
read_flagged flag put sets keeps (some v) rest a = rw (sets v a, read_options)

abbrev put_git : Option String → CommandAdd → CommandAdd
put_git o a = record a { git = or_else o a.git }

abbrev put_path : Option String → CommandAdd → CommandAdd
put_path o a = record a { path = or_else o a.path }

abbrev put_package_spec : Option String → CommandAdd → CommandAdd
put_package_spec o a = record a { package_spec = or_else o a.package_spec }

abbrev put_manifest_path : Option String → CommandAdd → CommandAdd
put_manifest_path o a = record a { manifest_path = or_else o a.manifest_path }

abbrev put_branch : Option String → CommandAdd → CommandAdd
put_branch o a = record a { branch = or_else o a.branch }

abbrev put_tag : Option String → CommandAdd → CommandAdd
put_tag o a = record a { tag = or_else o a.tag }

abbrev put_rev : Option String → CommandAdd → CommandAdd
put_rev o a = record a { rev = or_else o a.rev }

abbrev put_features : Option String → CommandAdd → CommandAdd
put_features o a = record a { features = or_else o a.features }

abbrev put_target : Option String → CommandAdd → CommandAdd
put_target o a = record a { target = or_else o a.target }

read-git :
    (o : Option String) (rest : List String) (a : CommandAdd)
    → read_options (flagged "--git" o ++ rest) a ≡ read_options rest (put_git o a)
read-git = read_flagged "--git" put_git (λ v a. refl) (λ a. refl)

read-path :
    (o : Option String) (rest : List String) (a : CommandAdd)
    → read_options (flagged "--path" o ++ rest) a ≡ read_options rest (put_path o a)
read-path = read_flagged "--path" put_path (λ v a. refl) (λ a. refl)

read-package_spec :
    (o : Option String) (rest : List String) (a : CommandAdd)
    → read_options (flagged "-p" o ++ rest) a ≡ read_options rest (put_package_spec o a)
read-package_spec = read_flagged "-p" put_package_spec (λ v a. refl) (λ a. refl)

read-manifest_path :
    (o : Option String) (rest : List String) (a : CommandAdd)
    → read_options (flagged "--manifest-path" o ++ rest) a
      ≡ read_options rest (put_manifest_path o a)
read-manifest_path = read_flagged "--manifest-path" put_manifest_path (λ v a. refl) (λ a. refl)

read-branch :
    (o : Option String) (rest : List String) (a : CommandAdd)
    → read_options (flagged "--branch" o ++ rest) a ≡ read_options rest (put_branch o a)
read-branch = read_flagged "--branch" put_branch (λ v a. refl) (λ a. refl)

read-tag :
    (o : Option String) (rest : List String) (a : CommandAdd)
    → read_options (flagged "--tag" o ++ rest) a ≡ read_options rest (put_tag o a)
read-tag = read_flagged "--tag" put_tag (λ v a. refl) (λ a. refl)

read-rev :
    (o : Option String) (rest : List String) (a : CommandAdd)
    → read_options (flagged "--rev" o ++ rest) a ≡ read_options rest (put_rev o a)
read-rev = read_flagged "--rev" put_rev (λ v a. refl) (λ a. refl)

read-features :
    (o : Option String) (rest : List String) (a : CommandAdd)
    → read_options (flagged "-F" o ++ rest) a ≡ read_options rest (put_features o a)
read-features = read_flagged "-F" put_features (λ v a. refl) (λ a. refl)

read-last :
    (o : Option String) (a : CommandAdd)
    → read_options (flagged "--target" o) a ≡ some (put_target o a)
unfolding read_options
read-last none a = refl
read-last (some v) a = refl

last_dashed : (o : Option String) → StartsDashed (flagged "--target" o)
last_dashed none = tt
last_dashed (some v) = refl

options_dashed : (a : CommandAdd) → StartsDashed (add_options a)
options_dashed a = dashed "--git" a.git _ refl (
    dashed "--path" a.path _ refl (
      dashed "-p" a.package_spec _ refl (
        dashed "--manifest-path" a.manifest_path _ refl (
          dashed "--branch" a.branch _ refl (
            dashed "--tag" a.tag _ refl (
              dashed "--rev" a.rev _ refl
                (dashed "-F" a.features _ refl (last_dashed a.target))))))))

-- Where no package starts with a dash, the command line of `cargo axplat add` is read back as the
-- packages and the options that were given: each option under its own flag, and none lost.
pub read_add-add_args :
    (a : CommandAdd) → All IsPackage a.dep_id → read_add [] (add_args a) ≡ some a
unfolding add_args read_options
read_add-add_args a h =
    rw
      (
        read_add-packages [] a.dep_id (add_options a) h,
        read_add-options a.dep_id (add_options a) (options_dashed a),
        read-git,
        read-path,
        read-package_spec,
        read-manifest_path,
        read-branch,
        read-tag,
        read-rev,
        read-features,
        read-last,
      )
      (simp or_else-none)
