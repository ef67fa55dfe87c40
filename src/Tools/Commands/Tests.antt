-- ===== src/Tools/Commands/Tests.antt =====
-- `cargo axplat add` of a platform from a branch of a repository.
use axplat_crates.Prelude.{◌≡◌, refl, false, none, some, [], ◌∷◌}
use axplat_crates.Tools.Commands.{exits, CommandAdd, add_args, add_platform, new_args}
use axplat_crates.Tools.Commands.Options.{read_add, read_add-add_args}

abbrev from_branch : CommandAdd
from_branch = record {
  dep_id = "axplat-x86-pc" ∷ "axplat-riscv64-qemu-virt@0.1" ∷ [];
  git = some "https://github.com/arceos-org/axplat_crates";
  path = none;
  package_spec = none;
  manifest_path = some "kernel/Cargo.toml";
  branch = some "dev";
  tag = none;
  rev = none;
  features = some "smp,irq";
  target = none;
}

words :
    add_args from_branch
    ≡ "axplat-x86-pc" ∷ "axplat-riscv64-qemu-virt@0.1" ∷ "--git"
      ∷ "https://github.com/arceos-org/axplat_crates" ∷ "--manifest-path" ∷ "kernel/Cargo.toml"
      ∷ "--branch" ∷ "dev" ∷ "-F" ∷ "smp,irq" ∷ []
unfolding add_args
words = refl

-- A process that a signal has ended gives code 1.
killed :
    add_platform (λ args. some (record { success = false; code = none; stdout = none })) from_branch
    ≡ exits 1
unfolding add_platform
killed = refl

new_words :
    new_args (record {
      path = "my-plat";
      arch = "aarch64";
      name = none;
      edition = some "2024";
      axplat_path = none;
    })
    ≡ "--lib" ∷ "my-plat" ∷ "--edition" ∷ "2024" ∷ []
unfolding new_args
new_words = refl

read_add-add_args_example : read_add [] (add_args from_branch) ≡ some from_branch
read_add-add_args_example = read_add-add_args from_branch (refl, (refl, tt))
