-- ===== src/Tools/Build/Paths.antt =====
-- The paths that cargo-axplat/build.rs lists.
use Prim.Native.String.{String, ◌++◌ as str_append}
use text.Mathlib.Text.{◌==◌ as str_eq}
use text.Mathlib.TextEquality.{eq_iff}
use text.Mathlib.TextLemmas.{append-ne-nil_of_right_ne-nil}
use text.Mathlib.TextLemmas as Text
use axplat_crates.Prelude.{
  List, [], ◌∷◌, ◌++◌, map, All, ok, false, ◌≡◌, ◌≢◌, refl, sym, ap, ap₂, ◌∙◌, Bool-cases, inl, inr,
  append_assoc,
}
use axplat_crates.Tools.Build.{
  Folder, done, file, dir, not_unicode, unreadable, full_name, get_files_recursively,
}

-- The files under a folder, each by the names on the way to it.
pub paths : Folder → List (List String)
paths done = []
paths (file name rest) = (name ∷ []) ∷ paths rest
paths (dir name entries rest) = map (λ path. name ∷ path) (paths entries) ++ paths rest
paths (not_unicode rest) = paths rest
paths unreadable = []

-- The names of a path with slashes in between.
pub slashed : List String → String
slashed [] = ""
slashed (name ∷ []) = name
slashed (name ∷ next ∷ names) = str_append name (str_append "/" (slashed (next ∷ names)))

-- Everything can be read, and no name is empty.
abbrev pub IsReadable : Folder → Type 0
IsReadable done = Unit
IsReadable (file name rest) = (name ≢ "") × IsReadable rest
IsReadable (dir name entries rest) = (name ≢ "") × IsReadable entries × IsReadable rest
IsReadable (not_unicode rest) = ⊥
IsReadable unreadable = ⊥

abbrev IsNamed : List String → Type 0
IsNamed = All (λ name. name ≢ "")

slashed-named :
    (name : String) (names : List String) → name ≢ "" → IsNamed names → slashed (name ∷ names) ≢ ""
unfolding slashed
slashed-named name [] ne h = ne
slashed-named name (next ∷ names) ne h =
    append-ne-nil_of_right_ne-nil name
      (append-ne-nil_of_right_ne-nil "/" (slashed-named next names h.0 h.1))

slashed-snoc :
    (first : String) (names : List String) (name : String)
    → str_append (slashed (first ∷ names)) (str_append "/" name)
      ≡ slashed (first ∷ names ++ name ∷ [])
unfolding slashed
slashed-snoc first [] name = refl
slashed-snoc first (next ∷ names) name =
    Text.append_assoc first (str_append "/" (slashed (next ∷ names))) (str_append "/" name)
    ∙ ap (str_append first) (
        Text.append_assoc "/" (slashed (next ∷ names)) (str_append "/" name)
        ∙ ap (str_append "/") (slashed-snoc next names name))

not_empty : (s : String) → s ≢ "" → str_eq s "" ≡ false
not_empty s ne = elim (Bool-cases (str_eq s "")) [
  | inl same ↦ absurd (ne ((eq_iff s "").0 same))
  | inr other ↦ other
]

full_name-slashed :
    (names : List String) (name : String)
    → IsNamed names
    → full_name name (slashed names) ≡ slashed (names ++ name ∷ [])
unfolding slashed
full_name-slashed [] name h = refl
full_name-slashed (first ∷ names) name h =
    rw (not_empty (slashed (first ∷ names)) (slashed-named first names h.0 h.1))
      (slashed-snoc first names name)

under : List String → List (List String) → List String
under names ps = map (λ path. slashed (names ++ path)) ps

under-append :
    (names : List String) (name : String) (ps qs : List (List String))
    → under names (map (λ path. name ∷ path) ps ++ qs)
      ≡ under (names ++ name ∷ []) ps ++ under names qs
unfolding under
under-append names name [] qs = refl
under-append names name (p ∷ ps) qs =
    ap₂ (λ path rest. slashed path ∷ rest) (sym (append_assoc names (name ∷ []) p))
      (under-append names name ps qs)

IsNamed-snoc :
    (names : List String) (name : String) → IsNamed names → name ≢ "" → IsNamed (names ++ name ∷ [])
IsNamed-snoc [] name h ne = (ne, tt)
IsNamed-snoc (first ∷ names) name h ne = (h.0, IsNamed-snoc names name h.1 ne)

get_files_recursively-under :
    (folder : Folder) (names : List String)
    → IsReadable folder
    → IsNamed names
    → get_files_recursively folder (slashed names) ≡ ok (under names (paths folder))
unfolding get_files_recursively paths under
get_files_recursively-under done names h named = refl
get_files_recursively-under (file name rest) names h named =
    rw (get_files_recursively-under rest names h.1 named, full_name-slashed names name named)
get_files_recursively-under (dir name entries rest) names h named = rw (
  full_name-slashed names name named,
  get_files_recursively-under entries (names ++ name ∷ []) h.1 (IsNamed-snoc names name named h.0),
  get_files_recursively-under rest names h.2 named,
  under-append names name (paths entries) (paths rest),
)
get_files_recursively-under (not_unicode rest) names h named = absurd h
get_files_recursively-under unreadable names h named = absurd h

-- `get_files_recursively` gives every file under a folder that can be read, in the order of reading,
-- each once, by the names on the way to it with slashes in between.
pub get_files_recursively-paths :
    (folder : Folder)
    → IsReadable folder
    → get_files_recursively folder "" ≡ ok (map slashed (paths folder))
unfolding slashed under
get_files_recursively-paths folder h = get_files_recursively-under folder [] h tt
