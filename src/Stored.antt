-- ===== src/Stored.antt =====
-- The state of the store daemon: `StoreDaemon` of snix-redox/src/stored/mod.rs, with what it answers
-- from the manifests that have been loaded. The database, the handles and the extractions are left.
mod Examples
pub mod Listing
use nix_redox.Base.{
  ℕ, Text, bytes, Bool, true, false, not, ◌&&◌, ◌||◌, Option, none, some, List, [], ◌∷◌, ◌++◌,
  if◌then◌else◌,
}
use nix_redox.Base.Strings.{text_key, text_eq}
use nix_redox.Base.Slices.{is_empty, trim, trim_end, strip_prefix, starts_with, split_once}
use nix_redox.Base.BTreeMap
use nix_redox.Base.BTreeMap.{BTreeMap}
use nix_redox.Base.BTreeSet
use nix_redox.Nar.{ManifestEntry}

pub record ManifestDirEntry : Type 0 where
  pub name : Text
  pub is_dir : Bool
  pub is_symlink : Bool
  pub size : ℕ
  pub executable : Bool

pub record StoreDaemon : Type 0 where
  pub manifests : BTreeMap Text (List ManifestEntry)
  pub registered_paths : List Text
  pub nar_hashes : BTreeMap Text Text

unfoldable pub is_registered_path : StoreDaemon → Text → Bool
unfolding BTreeSet.contains
is_registered_path d name = BTreeSet.contains name d.registered_paths

unfoldable pub expected_nar_hash : StoreDaemon → Text → Option Text
expected_nar_hash d name = BTreeMap.get name d.nar_hashes

unfoldable pub remember_store_path : StoreDaemon → Text → StoreDaemon
remember_store_path d name = record d { registered_paths = BTreeSet.insert name d.registered_paths }

unfoldable pub remember_nar_hash : StoreDaemon → Text → Text → StoreDaemon
unfolding remember_store_path
remember_nar_hash d name nar_hash = record (remember_store_path d name) {
  nar_hashes = BTreeMap.insert name nar_hash d.nar_hashes;
}

unfoldable pub list_registered_path_names : StoreDaemon → List Text
list_registered_path_names d = d.registered_paths

-- Some entry of a manifest passes a test.
unfoldable pub any_entry : (ManifestEntry → Bool) → List ManifestEntry → Bool
any_entry test [] = false
any_entry test (e ∷ es) = test e || any_entry test es

abbrev below : Text → ManifestEntry → Bool
below subpath e = starts_with (subpath ++ (b'/' ∷ [])) e.path

abbrev contains_in : Text → List ManifestEntry → Bool
contains_in subpath manifest =
    is_empty subpath
    || any_entry (λ e. text_eq e.path subpath) manifest
    || any_entry (below subpath) manifest

unfoldable pub manifest_contains_path : StoreDaemon → Text → Text → Option Bool
unfolding any_entry trim starts_with
manifest_contains_path d name subpath = elim (BTreeMap.get name d.manifests) [
  | none ↦ none
  | some manifest ↦ some (contains_in (trim b'/' subpath) manifest)
]

abbrev directory_in : Text → List ManifestEntry → Bool
directory_in subpath manifest =
    any_entry (λ e. text_eq e.path subpath && text_eq e.entry_type (bytes "dir")) manifest
    || any_entry (below subpath) manifest

unfoldable pub is_directory_in_manifest : StoreDaemon → Text → Text → Bool
unfolding any_entry trim starts_with
is_directory_in_manifest d name subpath = elim (BTreeMap.get name d.manifests) [
  | none ↦ true
  | some manifest ↦ directory_in (trim b'/' subpath) manifest
]

unfoldable pub metadata_in : Text → List ManifestEntry → ℕ × Bool
metadata_in subpath [] = (0, false)
metadata_in subpath (e ∷ es) =
    let rest = metadata_in subpath es in
    if text_eq e.path subpath then (e.size, e.executable) else rest

unfoldable pub file_metadata_from_manifest : StoreDaemon → Text → Text → ℕ × Bool
unfolding metadata_in trim
file_metadata_from_manifest d name subpath = elim (BTreeMap.get name d.manifests) [
  | none ↦ (0, false)
  | some manifest ↦ metadata_in (trim b'/' subpath) manifest
]

abbrev pub directory_entry : Text → ManifestDirEntry
directory_entry name = record {
  name = name;
  is_dir = true;
  is_symlink = false;
  size = 0;
  executable = false;
}

abbrev pub direct_entry : Text → ManifestEntry → ManifestDirEntry
direct_entry name e = record {
  name = name;
  is_dir = text_eq e.entry_type (bytes "dir");
  is_symlink = text_eq e.entry_type (bytes "symlink");
  size = e.size;
  executable = e.executable;
}

-- `entry(..).or_insert(..)`
abbrev pub or_insert : Text → BTreeMap Text ManifestDirEntry → BTreeMap Text ManifestDirEntry
or_insert name entries =
    if BTreeMap.contains_key name entries
    then entries
    else BTreeMap.insert name (directory_entry name) entries

abbrev pub insert_child :
    ManifestEntry
    → Text
    → Option (Text × Text)
    → BTreeMap Text ManifestDirEntry
    → BTreeMap Text ManifestDirEntry
insert_child e rel (some (dir, rest)) entries = or_insert dir entries
insert_child e rel none entries =
    if is_empty rel then entries else BTreeMap.insert rel (direct_entry rel e) entries

-- The path of an entry behind the prefix.
unfoldable pub insert_entry :
    Text → ManifestEntry → BTreeMap Text ManifestDirEntry → BTreeMap Text ManifestDirEntry
unfolding strip_prefix split_once
insert_entry prefix e entries = elim (strip_prefix prefix e.path) [
  | none ↦ entries
  | some rel ↦ insert_child e rel (split_once b'/' rel) entries
]

unfoldable pub list_loop :
    Text → List ManifestEntry → BTreeMap Text ManifestDirEntry → BTreeMap Text ManifestDirEntry
unfolding insert_entry
list_loop prefix [] entries = entries
list_loop prefix (e ∷ es) entries = list_loop prefix es (insert_entry prefix e entries)

-- `into_values`, which come in the order of their names.
unfoldable pub values : BTreeMap Text ManifestDirEntry → List ManifestDirEntry
values [] = []
values ((name, e) ∷ rest) = e ∷ values rest

unfoldable pub prefix_of : Text → Text
unfolding trim_end
prefix_of subpath = if is_empty subpath then [] else trim_end b'/' subpath ++ (b'/' ∷ [])

unfoldable pub list_from_manifest : StoreDaemon → Text → Text → Option (List ManifestDirEntry)
unfolding list_loop values prefix_of
list_from_manifest d name subpath = elim (BTreeMap.get name d.manifests) [
  | none ↦ none
  | some manifest ↦ some (values (list_loop (prefix_of subpath) manifest []))
]
