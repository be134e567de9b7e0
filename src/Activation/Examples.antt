-- ===== src/Activation/Examples.antt =====
-- An activation that changes nothing, one that cannot order its scripts, and a managed file.
use nix_redox.Base.{
  ℕ, Text, bytes, Bool, true, false, Option, none, some, List, [], ◌∷◌, ◌++◌, All, Result, ok, err,
  ◌≡◌, ◌↔◌, refl,
}
use nix_redox.Base.Strings.{text_key, text_eq}
use nix_redox.Base.BTreeMap
use nix_redox.System.{Package, Manifest, ActivationScript}
use nix_redox.Activation.{plan}
use nix_redox.Activation.Order.{topo_sort}
use nix_redox.Activation.Diffs.{same_package, last_named, plan-profile_needs_rebuild}
use nix_redox.Activation.Files.{managed_file_path_at}
use nix_redox.Activation.Files.Containment.{IsProper, tails, slashed, managed_file_path_at_below}

abbrev package_at : Text → Package
package_at path = record { name = bytes "rg"; version = bytes "1"; store_path = path }

abbrev manifest : List Package → Manifest
manifest packages = record {
  generation = record { id = 1; build_hash = []; description = []; timestamp = [] };
  boot = none;
  packages = packages;
  users = [];
  services = record { declared = []; init_scripts = []; startup_script = [] };
  activation_scripts = [];
  files = [];
  toplevel = none;
  etc_source = none;
}

abbrev no_binaries : List Package → ℕ
no_binaries packages = 0

abbrev before : Manifest
before = manifest (package_at (bytes "/s/r") ∷ [])

abbrev after : Manifest
after = manifest (package_at (bytes "/s/q") ∷ [])

plan-profile_needs_rebuild_example :
    ((plan no_binaries before after).profile_needs_rebuild ≡ false) ↔ (
      (name : Text)
      → same_package (last_named name before.packages) (last_named name after.packages) ≡ true)
plan-profile_needs_rebuild_example = plan-profile_needs_rebuild no_binaries before after

abbrev script : Text → List Text → ActivationScript
script name deps = record { name = name; deps = deps }

-- A dependency comes first.
scripts_in_order :
    topo_sort (script (bytes "b") (bytes "a" ∷ []) ∷ script (bytes "a") [] ∷ [])
    ≡ ok (bytes "a" ∷ bytes "b" ∷ [])
unfolding topo_sort nix_redox.Base.BTreeSet.contains nix_redox.Activation.Order.script_names text_eq
    BTreeMap.insert nix_redox.Base.Strings.text_lt BTreeMap.get nix_redox.Base.BTreeSet.sort
scripts_in_order = refl

-- Two scripts of one name are taken for a cycle.
scripts_twice : topo_sort (script (bytes "a") [] ∷ script (bytes "a") [] ∷ []) ≡ err []
unfolding topo_sort nix_redox.Base.BTreeSet.contains nix_redox.Activation.Order.script_names
    BTreeMap.insert text_eq BTreeMap.get nix_redox.Base.BTreeSet.sort
scripts_twice = refl

motd_accepted : managed_file_path_at (bytes "/") (bytes "etc//./motd") ≡ ok (bytes "/etc/motd")
unfolding managed_file_path_at text_eq
motd_accepted = refl

managed_file_path_at_below_example :
    (part : Text) × ((parts : List Text) × (All IsProper (part ∷ parts)
        × (bytes "/etc/motd" ≡ slashed (bytes "/") ++ (part ++ tails parts))))
managed_file_path_at_below_example =
    managed_file_path_at_below (bytes "/") (bytes "etc//./motd") (bytes "/etc/motd") motd_accepted
