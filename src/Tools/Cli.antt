-- ===== src/Tools/Cli.antt =====
-- The commands of cargo-axplat/src/main.rs. The command line is what clap makes of it.
use Prim.Native.String.{String}
use axplat_crates.Prelude.{Bool, Option, none, some, List, if◌then◌else◌, Result, Exec}
use axplat_crates.Tools.Commands.{CommandNew, CommandAdd, Output, Process, add_platform}
use axplat_crates.Tools.Info.{CommandInfo, Package, Outcome, platform_info}
use axplat_crates.Tools.Info as Info
use axplat_crates.Tools.Template.{new_platform}
use axplat_crates.Tools.Template as Template

data AxplatCommand : Type 0 where
  new : CommandNew → AxplatCommand
  add : CommandAdd → AxplatCommand
  info : CommandInfo → AxplatCommand

record CargoCommand : Type 0 where
  version : Bool
  command : Option AxplatCommand

-- What a run of the program comes to, with what its command comes to.
data Ran (FileSystem : Type 0) : Type 0 where
  prints_version : Ran FileSystem
  makes : Process FileSystem → Ran FileSystem
  adds : Process String → Ran FileSystem
  tells : Exec Outcome → Ran FileSystem
  panics : Ran FileSystem

-- `cargo`, `created` and `answer` are what cargo does: to a command, to the files once it has made
-- a package, and to the question for the packages.
module _ (files : Template.Env) (documents : Info.Env) (cargo : List String → Option Output)
    (created : files.FileSystem) (template : List (String × String))
    (answer : CommandInfo → Result (List Package) String) where
  abbrev run : AxplatCommand → Ran files.FileSystem
  run (new args) = makes (new_platform files cargo created template args)
  run (add args) = adds (add_platform cargo args)
  run (info args) = tells (platform_info documents (answer args) args)

  main : CargoCommand → Ran files.FileSystem
  main axplat =
      if axplat.version
      then prints_version
      else elim axplat.command [ none ↦ panics | some command ↦ run command ]
