-- ===== src/Profile/Examples.antt =====
-- A profile with two packages that have the same file.
use nix_redox.Base.{
  ℕ, Text, bytes, Bool, true, false, Option, none, some, List, [], ◌∷◌, Result, ok, err,
  if◌then◌else◌, ◌≡◌, refl,
}
use nix_redox.Base.Strings.{text_key, text_eq}
use nix_redox.Base.BTreeMap
use nix_redox.Profile.Mapping
use nix_redox.Profile.Mapping.{
  ProfileEntry, ProfileMapping, ResolvedFile, DirItem, resolve_path, list_union,
}
use nix_redox.Profile.Mapping.Resolution.{Provider, resolve_path-Provider}
use nix_redox.Profile.Mapping.Union.{find_entry, last_offer, list_union_last_wins}
use nix_redox.Profile.Persistence.{
  is_dir_name, ControlCommand, ProfileStore, get_or_create, add_package, remove_package, load,
}
use nix_redox.Profile.Persistence.Removal.{remove_package-IsSynced}
use nix_redox.Profile.Persistence.Durability.{IsSynced, add_package-IsSynced}
use nix_redox.Profile.Catalog.{catalog_of, IsSound}
use nix_redox.Profile.Refinement.{Event, command, restart, spec_run, run, run-spec_run}

abbrev coreutils : ProfileEntry
coreutils = record { name = bytes "coreutils"; store_path = bytes "/s/c"; installed_at = 1 }

abbrev busybox : ProfileEntry
busybox = record { name = bytes "busybox"; store_path = bytes "/s/b"; installed_at = 2 }

abbrev mapping : ProfileMapping
mapping = record { version = 1; packages = coreutils ∷ busybox ∷ [] }

abbrev anything : Text → Bool
anything path = true

abbrev bin : Text → List DirItem
bin path =
    record { name = bytes "ls"; is_dir = false; is_symlink = false }
    ∷ record { name = bytes "cat"; is_dir = false; is_symlink = true }
    ∷ []

abbrev ls_of_busybox : ResolvedFile
ls_of_busybox = record {
  package_name = bytes "busybox";
  store_path = bytes "/s/b";
  full_path = bytes "/s/b/ls";
}

ls_resolved : resolve_path anything mapping (bytes "ls") ≡ some ls_of_busybox
unfolding resolve_path nix_redox.Profile.Mapping.resolve_last nix_redox.Base.FilePath.join
    nix_redox.Base.FilePath.is_absolute
ls_resolved = refl

resolve_path-Provider_example : Provider anything (bytes "ls") mapping.packages ls_of_busybox
resolve_path-Provider_example =
    resolve_path-Provider anything (bytes "ls") mapping ls_of_busybox ls_resolved

list_union_last_wins_example :
    find_entry (bytes "ls") (list_union bin mapping (bytes "bin"))
    ≡ last_offer bin (bytes "bin") (bytes "ls") mapping.packages
list_union_last_wins_example = list_union_last_wins bin mapping (bytes "bin") (bytes "ls")

abbrev unused : ProfileStore
unused = record {
  profiles = [];
  disk = record {
    dirs = [];
    writable = true;
    outside = [];
    writable_outside = λ name. true;
    others = λ name. false;
  };
}

unused-IsSynced : IsSynced unused
unfolding BTreeMap.get
unused-IsSynced = record {
  ordered = tt;
  no_others = λ j. refl;
  plain = λ j n. refl;
  same = λ now j. refl;
}

default-plain : is_dir_name (bytes "default") ≡ true
unfolding is_dir_name text_eq nix_redox.Base.Slices.has_byte
default-plain = refl

work-plain : is_dir_name (bytes "work") ≡ true
unfolding is_dir_name text_eq nix_redox.Base.Slices.has_byte
work-plain = refl

abbrev used : ProfileStore
used = (add_package unused (bytes "default") (bytes "rg") (bytes "/s/r") 3).1

used-IsSynced : IsSynced used
used-IsSynced =
    (add_package-IsSynced unused (bytes "default") (bytes "rg") (bytes "/s/r") (bytes "rg") 3
      unused-IsSynced default-plain refl).1.0

used_writable : used.disk.writable ≡ true
unfolding add_package nix_redox.Profile.Persistence.persist get_or_create BTreeMap.get
    BTreeMap.insert text_eq
used_writable = refl

used_writable_outside : used.disk.writable_outside (bytes "..") ≡ true
unfolding add_package nix_redox.Profile.Persistence.persist
    nix_redox.Profile.Persistence.write_joined get_or_create is_dir_name
    nix_redox.Base.Slices.has_byte BTreeMap.get BTreeMap.insert text_eq
used_writable_outside = refl

add_package-IsSynced_example :
    ((add_package unused (bytes "default") (bytes "rg") (bytes "/s/r") 3).0 ≡ ok tt)
    × (IsSynced used
        × (Mapping.get (get_or_create used (bytes "default")) (bytes "rg") ≡ (
            if text_eq (bytes "rg") (bytes "rg")
            then some (record { name = bytes "rg"; store_path = bytes "/s/r"; installed_at = 3 })
            else Mapping.get (get_or_create unused (bytes "default")) (bytes "rg"))))
add_package-IsSynced_example =
    add_package-IsSynced unused (bytes "default") (bytes "rg") (bytes "/s/r") (bytes "rg") 3
      unused-IsSynced default-plain refl

remove_package-IsSynced_example :
    ((remove_package used (bytes "default") (bytes "rg")).0
      ≡ ok (elim (Mapping.get (get_or_create used (bytes "default")) (bytes "rg")) [
        | none ↦ false
        | some p ↦ true
      ]))
    × (IsSynced (remove_package used (bytes "default") (bytes "rg")).1
        × (Mapping.get
              (get_or_create
                (remove_package used (bytes "default") (bytes "rg")).1
                (bytes "default"))
              (bytes "rg")
            ≡ (if text_eq (bytes "rg") (bytes "rg")
                then none
                else Mapping.get (get_or_create used (bytes "default")) (bytes "rg"))))
remove_package-IsSynced_example =
    remove_package-IsSynced used (bytes "default") (bytes "rg") (bytes "rg") used-IsSynced
      used_writable

abbrev drop_rg : ControlCommand
drop_rg = record { action = bytes "remove"; name = bytes "rg"; store_path = none; files = [] }

abbrev history : List Event
history =
    restart 4
    ∷ command (bytes "default") (some drop_rg) 5
    ∷ command (bytes "work") (some drop_rg) 6
    ∷ restart 7
    ∷ []

run-spec_run_example :
    (t : ProfileStore) × ((run history used ≡ ok t)
      × (IsSound t × (catalog_of t ≡ spec_run history (catalog_of used))))
run-spec_run_example =
    run-spec_run history used (record { synced = used-IsSynced; writable = used_writable })
      (default-plain, (work-plain, tt))

parent_not_plain : is_dir_name (bytes "..") ≡ false
unfolding is_dir_name text_eq nix_redox.Base.Slices.has_byte
parent_not_plain = refl
