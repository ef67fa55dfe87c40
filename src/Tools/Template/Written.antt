-- ===== src/Tools/Template/Written.antt =====
-- The package that `apply_template` of cargo-axplat/src/new.rs leaves.
use Prim.Native.String.{String}
use text.Mathlib.Text.{◌==◌ as str_eq}
use text.Mathlib.TextEquality.{eq_iff}
use axplat_crates.Prelude.{
  Option, none, some, List, [], ◌∷◌, All, false, true, Result, ok, err, Exec, returns, ◌≡◌, ◌≢◌,
  ◌⊎◌, inl, inr, refl, ◌∙◌, Bool-cases,
}
use axplat_crates.Prelude.Replace.{replace}
use axplat_crates.Tools.Template.{
  Env, apply_cargo_toml_template, render, apply_files, apply_template, package_name,
}

write_cases : {A E : Type 0} (r : Result A E) → ((a : A) × (r ≡ ok a)) ⊎ ((e : E) × (r ≡ err e))
write_cases (ok a) = inl (a, refl)
write_cases (err e) = inr (e, refl)

differs : (s t : String) → s ≢ t → str_eq s t ≡ false
differs s t ne = elim (Bool-cases (str_eq s t)) [
  | inl same ↦ absurd (ne ((eq_iff s t).0 same))
  | inr other ↦ other
]

module _ (env : Env) where
  open env use {
    FileSystem, IoError, Document, Item, join, read_to_string, write, parse, to_string, index,
    path_table, set_index, set_index_in,
  }

  -- What the texts of the files are to be, without the code that makes them.
  abbrev pub HasPath : Option String → (doc orig' : Document) → Type 0
  HasPath none doc orig' = orig' ≡ doc
  HasPath (some path) doc orig' =
      set_index_in doc "dependencies" "axplat" (path_table path) ≡ returns orig'

  -- The document with the dependencies and the features of the template's.
  abbrev pub Merged : Option String → (orig new orig' : Document) → Type 0
  Merged axplat_path orig new orig' =
      (d : Item) × (f : Item) × (index new "dependencies" ≡ returns d)
      × (index new "features" ≡ returns f)
      × HasPath axplat_path (set_index (set_index orig "dependencies" d) "features" f) orig'

  apply_cargo_toml_template-Merged :
      (axplat_path : Option String) (orig new orig' : Document)
      → Merged axplat_path orig new orig'
      → apply_cargo_toml_template env orig new axplat_path ≡ returns orig'
  unfolding apply_cargo_toml_template
  apply_cargo_toml_template-Merged none orig new orig' (d, f, hd, hf, at) = rw (hd, hf, at)
  apply_cargo_toml_template-Merged (some path) orig new orig' (d, f, hd, hf, at) = rw (hd, hf, at)

  module _ (arch pkg : String) (axplat_path : Option String) where
    abbrev pub IsText :
        (orig : Document) (name content : String) (orig' : Document) (text : String) → Type 0
    IsText orig name content orig' text =
        ((name ≡ "Cargo.toml")
          × (new : Document) × (parse content ≡ some new)
          × Merged axplat_path orig new orig'
          × (text ≡ to_string orig'))
        ⊎ (((name ≡ "axconfig.toml")
              × (orig' ≡ orig)
              × (text ≡ replace "<PACKAGE>" pkg (replace "<ARCH>" arch content)))
            ⊎ ((name ≢ "Cargo.toml")
                × (name ≢ "axconfig.toml")
                × (orig' ≡ orig)
                × (text ≡ content)))

    abbrev pub AreTexts : List (String × String) → Document → List String → Type 0
    AreTexts [] orig [] = Unit
    AreTexts [] orig (_ ∷ _) = ⊥
    AreTexts (_ ∷ _) orig [] = ⊥
    AreTexts ((name, content) ∷ files) orig (text ∷ texts) =
        (orig' : Document) × IsText orig name content orig' text × AreTexts files orig' texts

    render-IsText :
        (orig : Document) (name content : String) (orig' : Document) (text : String)
        → IsText orig name content orig' text
        → render env arch pkg axplat_path orig name content ≡ returns (orig', text)
    unfolding render
    render-IsText orig name content orig' text (inl (cargo, new, parsed, merged, t)) =
        let here : str_eq name "Cargo.toml" ≡ true = (eq_iff name "Cargo.toml").1 cargo in
        rw (here, parsed, apply_cargo_toml_template-Merged axplat_path orig new orig' merged, t)
    render-IsText orig name content orig' text (inr (inl (config, o, t))) = rw (config, o, t)
    render-IsText orig name content orig' text (inr (inr (a, b, o, t))) =
        rw (differs name "Cargo.toml" a, differs name "axconfig.toml" b, o, t)

  -- What files do: of the paths that are `Plain`, such as those of regular files, a write that
  -- succeeds is what is read next, and leaves what is read at a path of no `Same` file.
  module _ (Plain : String → Type 0) (Same : String → String → Type 0) where
    pub record Keeps : Type 0 where
      pub read-write :
          (path content : String) (fs fs' : FileSystem)
          → Plain path
          → write path content fs ≡ ok fs'
          → read_to_string path fs' ≡ ok content
      pub read-write_other :
          (path content other : String) (fs fs' : FileSystem)
          → Plain path
          → write path content fs ≡ ok fs'
          → ¬ Same other path
          → read_to_string other fs' ≡ read_to_string other fs

    -- The files of the template have plain paths in the package, no two of the same file.
    abbrev pub IsApart : (path : String) → List (String × String) → Type 0
    IsApart path [] = Unit
    IsApart path (file ∷ files) =
        Plain (join path file.0)
        × All (λ other. ¬ Same (join path file.0) (join path other.0)) files
        × IsApart path files

    abbrev pub Reads : (path : String) → FileSystem → List (String × String) → List String → Type 0
    Reads path fs [] texts = Unit
    Reads path fs (_ ∷ _) [] = ⊥
    Reads path fs (file ∷ files) (text ∷ texts) =
        (read_to_string (join path file.0) fs ≡ ok text) × Reads path fs files texts

    abbrev pub Untouched :
        (path : String) (files : List (String × String)) → (fs fs' : FileSystem) → Type 0
    Untouched path files fs fs' =
        (other : String)
        → All (λ file. ¬ Same other (join path file.0)) files
        → read_to_string other fs' ≡ read_to_string other fs

    -- The write of one of the texts to its file fails with this error.
    abbrev pub Fails : (path : String) → List (String × String) → List String → IoError → Type 0
    Fails path [] texts e = ⊥
    Fails path (_ ∷ _) [] e = ⊥
    Fails path (file ∷ files) (text ∷ texts) e =
        ((fs : FileSystem) × (write (join path file.0) text fs ≡ err e)) ⊎ Fails path files texts e

    -- Everything is written, or the error of a write is returned.
    abbrev pub Ends :
        (path : String) (files : List (String × String)) (texts : List String) (fs : FileSystem)
        → Exec (Result FileSystem IoError)
        → Type 0
    Ends path files texts fs run =
        ((fs' : FileSystem) × (run ≡ returns (ok fs'))
          × Reads path fs' files texts
          × Untouched path files fs fs')
        ⊎ ((e : IoError) × (run ≡ returns (err e)) × Fails path files texts e)

    module _ (keeps : Keeps) (path arch pkg : String) (axplat_path : Option String) where
      apply_files-written :
          (files : List (String × String)) (orig : Document) (fs : FileSystem) (texts : List String)
          → IsApart path files
          → AreTexts arch pkg axplat_path files orig texts
          → Ends path files texts fs (apply_files env path arch pkg axplat_path files orig fs)
      unfolding apply_files
      apply_files-written [] orig fs [] apart h = inl (fs, refl, tt, λ other hs. refl)
      apply_files-written [] orig fs (_ ∷ _) apart h = absurd h
      apply_files-written (_ ∷ _) orig fs [] apart h = absurd h
      apply_files-written ((name, content) ∷ files) orig fs (text ∷ texts) (plain, others, apart)
            (orig', is, rest) =
          let made = render-IsText arch pkg axplat_path orig name content orig' text is in
          elim (write_cases (write (join path name) text fs)) [
            | inr (e, failed) ↦ inr (e, rw (made, failed), inl (fs, failed))
            | inl (fs_1, written) ↦ elim (apply_files-written files orig' fs_1 texts apart rest) [
              | inr (e, run, failed) ↦ inr (e, rw (made, written, run), inr failed)
              | inl (fs', run, reads, untouched) ↦
                  let head : read_to_string (join path name) fs' ≡ ok text =
                    untouched (join path name) others
                    ∙ keeps.read-write (join path name) text fs fs_1 plain written in
                  inl (
                    fs',
                    rw (made, written, run),
                    (head, reads),
                    λ other hs.
                        untouched other hs.1
                        ∙ keeps.read-write_other (join path name) text other fs fs_1 plain written
                            hs.0,
                  )
            ]
          ]

      -- `cargo axplat new` writes the files of the template into the package as long as no write
      -- fails: `Cargo.toml` with the dependencies and features of the template's, and the path of
      -- `axplat` where one is given, `axconfig.toml` with the architecture and the package's name put
      -- in, and the others as they are. Where the package has a readable
      -- `Cargo.toml` that names it and the documents can be parsed and merged, `apply_template`
      -- returns: either every file of the template then reads as its text, and every path of none of
      -- these files reads as before; or a write failed, and its error is returned. The files have to
      -- have paths of files of their own that keep what is written.
      pub apply_template-written :
          (template : List (String × String)) (fs : FileSystem) (cargo_toml : String)
          (orig : Document) (texts : List String)
          → read_to_string (join path "Cargo.toml") fs ≡ ok cargo_toml
          → parse cargo_toml ≡ some orig
          → package_name env orig ≡ returns pkg
          → IsApart path template
          → AreTexts arch pkg axplat_path template orig texts
          → Ends path template texts fs (apply_template env template path arch axplat_path fs)
      unfolding apply_template
      apply_template-written template fs cargo_toml orig texts readable parsed named apart h =
          rw (readable, parsed, named) (apply_files-written template orig fs texts apart h)
