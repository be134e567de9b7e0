-- ===== src/Activation.antt =====
-- The plan of an activation: `plan` and the comparisons of snix-redox/src/activate.rs.
mod Examples
pub mod Order
pub mod Diffs
pub mod Files
use nix_redox.Base.{
  ℕ, ◌==◌, Text, Bool, true, false, not, ◌&&◌, ◌||◌, Option, none, some, List, [], ◌∷◌, map, Result,
  ok, err, if◌then◌else◌,
}
use nix_redox.Base.Strings.{text_key, text_eq}
use nix_redox.Base.Slices.{is_empty}
use nix_redox.Base.BTreeMap
use nix_redox.Base.BTreeMap.{BTreeMap}
use nix_redox.System.{Package, User, ServiceInfo, FileInfo, Manifest}
use nix_redox.Activation.Order.{topo_sort}

pub record PackageChange : Type 0 where
  pub name : Text
  pub old_version : Text
  pub new_version : Text
  pub old_store_path : Text
  pub new_store_path : Text

pub record ConfigChange : Type 0 where
  pub path : Text
  pub old_hash : Text
  pub new_hash : Text

pub record ServiceChange : Type 0 where
  pub name : Text
  pub svc_type : Text
  pub description : Text

-- The loops that all comparisons have: entries that are new, that differ, and that are gone.
module _ {ℓ} {V : Type ℓ} where
  unfoldable pub added : BTreeMap Text V → BTreeMap Text V → BTreeMap Text V
  added old [] = []
  added old ((name, v) ∷ new) =
      let rest = added old new in if BTreeMap.contains_key name old then rest else (name, v) ∷ rest

  module _ (differs : V → V → Bool) where
    abbrev difference : Text → Option V → V → BTreeMap Text (V × V) → BTreeMap Text (V × V)
    difference name none v rest = rest
    difference name (some o) v rest = if differs o v then (name, (o, v)) ∷ rest else rest

    unfoldable pub changed : BTreeMap Text V → BTreeMap Text V → BTreeMap Text (V × V)
    changed old [] = []
    changed old ((name, v) ∷ new) = difference name (BTreeMap.get name old) v (changed old new)

-- `collect` into a map by name.
unfoldable pub insert_packages : List Package → BTreeMap Text Package → BTreeMap Text Package
insert_packages [] m = m
insert_packages (p ∷ ps) m = insert_packages ps (BTreeMap.insert p.name p m)

unfoldable pub by_name : List Package → BTreeMap Text Package
unfolding insert_packages
by_name packages = insert_packages packages []

abbrev pub package_differs : Package → Package → Bool
package_differs o n = not (text_eq o.version n.version) || not (text_eq o.store_path n.store_path)

abbrev pub package_change : Text × (Package × Package) → PackageChange
package_change (name, (o, n)) = record {
  name = name;
  old_version = o.version;
  new_version = n.version;
  old_store_path = o.store_path;
  new_store_path = n.store_path;
}

abbrev pub name_of {ℓ} : {V : Type ℓ} → Text × V → Text
name_of (name, v) = name

abbrev file_differs : FileInfo → FileInfo → Bool
file_differs o n = not (text_eq o.blake3 n.blake3)

abbrev config_change : Text × (FileInfo × FileInfo) → ConfigChange
config_change (path, (o, n)) = record { path = path; old_hash = o.blake3; new_hash = n.blake3 }

unfoldable pub diff_config_files :
    BTreeMap Text FileInfo → BTreeMap Text FileInfo → List Text × (List Text × List ConfigChange)
unfolding added changed
diff_config_files old new = (
  map name_of (added old new),
  (map name_of (added new old), map config_change (changed file_differs old new)),
)

unfoldable texts_eq : List Text → List Text → Bool
texts_eq [] [] = true
texts_eq (x ∷ xs) (y ∷ ys) = text_eq x y && texts_eq xs ys
texts_eq xs ys = false

unfoldable environment_eq : BTreeMap Text Text → BTreeMap Text Text → Bool
environment_eq [] [] = true
environment_eq ((j, x) ∷ xs) ((k, y) ∷ ys) = text_eq j k && text_eq x y && environment_eq xs ys
environment_eq xs ys = false

-- The derived `!=`.
unfoldable pub service_differs : ServiceInfo → ServiceInfo → Bool
unfolding texts_eq environment_eq
service_differs o n = not (
    text_eq o.description n.description
    && text_eq o.command n.command
    && text_eq o.svc_type n.svc_type
    && text_eq o.args n.args
    && text_eq o.wanted_by n.wanted_by
    && environment_eq o.environment n.environment
    && texts_eq o.after n.after)

abbrev service_change : Text × ServiceInfo → ServiceChange
service_change (name, s) = record {
  name = name;
  svc_type = s.svc_type;
  description = s.description;
}

abbrev new_service : Text × (ServiceInfo × ServiceInfo) → ServiceChange
new_service (name, (o, n)) = service_change (name, n)

unfoldable pub diff_declared_services :
    BTreeMap Text ServiceInfo
    → BTreeMap Text ServiceInfo
    → List ServiceChange × (List ServiceChange × List ServiceChange)
unfolding added changed service_differs
diff_declared_services old new = (
  map service_change (added old new),
  (map service_change (added new old), map new_service (changed service_differs old new)),
)

abbrev user_differs : User → User → Bool
user_differs o n =
    not (o.uid == n.uid)
    || not (o.gid == n.gid)
    || not (text_eq o.home n.home)
    || not (text_eq o.shell n.shell)

unfoldable pub diff_users :
    BTreeMap Text User → BTreeMap Text User → List Text × (List Text × List Text)
unfolding added changed
diff_users old new = (
  map name_of (added old new),
  (map name_of (added new old), map name_of (changed user_differs old new)),
)

pub record ActivationPlan : Type 0 where
  pub packages_added : List Text
  pub packages_removed : List Text
  pub packages_changed : List PackageChange
  pub config_files : List Text × (List Text × List ConfigChange)
  pub services : List ServiceChange × (List ServiceChange × List ServiceChange)
  pub profile_needs_rebuild : Bool
  pub profile_binary_count : ℕ
  pub users : List Text × (List Text × List Text)
  pub activation_scripts : List Text

abbrev or_empty : Result (List Text) (List Text) → List Text
or_empty (ok names) = names
or_empty (err e) = []

-- `binaries` is the number of files that the packages have in their directories for binaries. The
-- groups of three are those that are added, removed and changed.
unfoldable pub plan : (List Package → ℕ) → Manifest → Manifest → ActivationPlan
unfolding added changed by_name diff_config_files diff_declared_services diff_users topo_sort
plan binaries old new =
    let old_pkgs = by_name old.packages in
    let new_pkgs = by_name new.packages in
    let packages_added = map name_of (added old_pkgs new_pkgs) in
    let packages_removed = map name_of (added new_pkgs old_pkgs) in
    let packages_changed = map package_change (changed package_differs old_pkgs new_pkgs) in
    record {
      packages_added = packages_added;
      packages_removed = packages_removed;
      packages_changed = packages_changed;
      config_files = diff_config_files old.files new.files;
      services = diff_declared_services old.services.declared new.services.declared;
      profile_needs_rebuild =
          not (is_empty packages_added)
          || not (is_empty packages_removed)
          || not (is_empty packages_changed);
      profile_binary_count = binaries new.packages;
      users = diff_users old.users new.users;
      activation_scripts = or_empty (topo_sort new.activation_scripts);
    }
