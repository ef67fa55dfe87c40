-- ===== src/Tools/Commands.antt =====
-- The commands of cargo that cargo-axplat runs: cargo-axplat/src/main.rs, add.rs and new.rs. What the
-- command does is a parameter: its output, or none where it cannot be run.
pub mod Options
mod Tests
use Prim.Native.String.{String}
use axplat_crates.Prelude.{
  ℕ, Bool, true, false, Option, none, some, List, [], ◌∷◌, ◌++◌, if◌then◌else◌,
}

-- `None` is a process that a signal has ended.
pub record Output : Type 0 where
  pub success : Bool
  pub code : Option ℕ
  pub stdout : Option String

-- The run of a program that goes on, ends with a code, panics, or is undefined.
pub data Process {ℓ} (A : Type ℓ) : Type ℓ where
  goes_on : A → Process A
  exits : (code : ℕ) → Process A
  panics : Process A
  undefined : Process A

abbrev pub unwrap_or : Option ℕ → ℕ → ℕ
unwrap_or none d = d
unwrap_or (some n) d = n

abbrev pub from_utf8 : Option String → Process String
from_utf8 none = panics
from_utf8 (some s) = goes_on s

-- The arguments of the command, and what comes of it. The output to `stderr` is passed on.
pub cargo_command : (command : String) (add_args : List String) → List String
cargo_command command add_args = command ∷ "--color" ∷ "always" ∷ add_args

pub run_cargo_command :
    (cargo : List String → Option Output) (command : String) (add_args : List String)
    → Process String
unfolding cargo_command
run_cargo_command cargo command add_args = elim (cargo (cargo_command command add_args)) [
  | none ↦ panics
  | some output ↦
      if output.success then from_utf8 output.stdout else exits (unwrap_or output.code 1)
]

pub record CommandAdd : Type 0 where
  pub dep_id : List String
  pub git : Option String
  pub path : Option String
  pub package_spec : Option String
  pub manifest_path : Option String
  pub branch : Option String
  pub tag : Option String
  pub rev : Option String
  pub features : Option String
  pub target : Option String

-- An option with its flag.
abbrev pub flagged : String → Option String → List String
flagged flag none = []
flagged flag (some value) = flag ∷ value ∷ []

abbrev pub add_options : CommandAdd → List String
add_options a =
    (flagged "--git" a.git
      ++ (flagged "--path" a.path
          ++ (flagged "-p" a.package_spec
              ++ (flagged "--manifest-path" a.manifest_path
                  ++ (flagged "--branch" a.branch
                      ++ (flagged "--tag" a.tag
                          ++ (flagged "--rev" a.rev
                              ++ (flagged "-F" a.features ++ flagged "--target" a.target))))))))

pub add_args : CommandAdd → List String
add_args a = a.dep_id ++ add_options a

pub add_platform : (cargo : List String → Option Output) → CommandAdd → Process String
unfolding add_args run_cargo_command
add_platform cargo a = run_cargo_command cargo "add" (add_args a)

pub record CommandNew : Type 0 where
  pub path : String
  pub arch : String
  pub name : Option String
  pub edition : Option String
  pub axplat_path : Option String

pub new_args : CommandNew → List String
new_args a = "--lib" ∷ a.path ∷ (flagged "--name" a.name ++ flagged "--edition" a.edition)
