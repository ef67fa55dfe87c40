-- ===== src/Tools/Info/Tests.antt =====
-- `cargo axplat info` in a workspace with two versions of one package.
use Prim.Native.String.{String}
use text.Mathlib.Text.{◌==◌ as str_eq}
use axplat_crates.Prelude.{
  ◌≡◌, ◌≢◌, refl, true, false, none, some, [], ◌∷◌, if◌then◌else◌, ok, err, Result, Exec, returns,
  panics,
}
use axplat_crates.Tools.Info.{CommandInfo, Package, Env, IoError, not_found, printed, platform_info}

-- A document is a pair of texts.
abbrev field : String × String → String → Exec String
field doc key =
    if str_eq key "platform"
    then returns doc.0
    else if str_eq key "arch"
    then returns doc.1
    else panics

abbrev read : String → Result String IoError
read path = if str_eq path "/deps/x86/axconfig.toml" then ok "x86" else err not_found

abbrev env : Env
env = record {
  Document = String × String;
  Item = String;
  parent = λ path. some "/deps/x86";
  join = λ dir file. "/deps/x86/axconfig.toml";
  read_to_string = read;
  parse = λ toml. some ("x86-pc", "x86_64");
  index = field;
  as_str = λ item. some item;
}

abbrev x86 : Package
x86 = record {
  name = "axplat-x86-pc";
  version = "0.3.0";
  source = none;
  id = "path+file:///deps/x86#0.3.0";
  manifest_path = ok "/deps/x86/Cargo.toml";
}

abbrev axcpu : Package
axcpu = record x86 { name = "axcpu" }

abbrev old_x86 : Package
old_x86 = record x86 { version = "0.1.0" }

abbrev asked : CommandInfo
asked = record {
  package_name = "axplat-x86-pc";
  plat = false;
  arch = true;
  version = true;
  source = false;
  config_path = false;
}

arch_and_version :
    platform_info env (ok (axcpu ∷ x86 ∷ old_x86 ∷ [])) asked
    ≡ returns (printed ("x86_64" ∷ "0.3.0" ∷ []))
unfolding platform_info
arch_and_version = refl

other_name : ◌≢◌ {A = String} "axcpu" "axplat-x86-pc"
other_name = cc
