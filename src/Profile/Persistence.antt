-- ===== src/Profile/Persistence.antt =====
-- `ProfileStore` of snix-redox/src/profiled/mapping.rs: the profiles in memory, their directories
-- on disk, and the control commands. A file is what serde makes of its content; one that cannot be
-- read is malformed. The directories are walked in the order of their names.
pub mod Durability
pub mod Removal
pub mod Restart
pub mod Outside
use nix_redox.Base.{
  ℕ, Text, bytes, Bool, true, false, not, ◌&&◌, ◌||◌, Option, none, some, List, [], ◌∷◌, Result, ok,
  err, ◌>>=◌, ok_or, if◌then◌else◌,
}
use nix_redox.Base.Strings.{text_key, text_eq}
use nix_redox.Base.BTreeMap
use nix_redox.Base.BTreeMap.{BTreeMap}
use nix_redox.Base.Slices.{is_empty, has_byte}
use nix_redox.Nar.{ManifestEntry}
use nix_redox.Profile.Mapping
use nix_redox.Profile.Mapping.{ProfileEntry, ProfileMapping}

pub data MappingFile : Type 0 where
  parsed : ProfileMapping → MappingFile
  malformed : MappingFile

-- The install manifest: the store path of each package.
pub data InstallManifest : Type 0 where
  packages : BTreeMap Text Text → InstallManifest
  malformed_manifest : InstallManifest

pub record ProfileDir : Type 0 where
  pub mapping_json : Option MappingFile
  pub manifest_json : Option InstallManifest

-- A name that `join` makes a directory of that name in the profiles directory of, one that `read_dir`
-- can list: it is not `.` or `..`, nor empty, and has neither a slash nor a zero byte.
unfoldable pub is_dir_name : Text → Bool
unfolding has_byte
is_dir_name name = not (
    is_empty name
    || text_eq name (bytes ".")
    || text_eq name (bytes "..")
    || has_byte b'/' name
    || has_byte 0 name)

-- `dirs` are the directories that `read_dir` lists. Other names, of which the scheme lets `.` and `..`
-- through, lead to places that it does not list: `outside` has the mapping files that were written
-- there, by name, and `writable_outside` says where that succeeds. The same goes for the names of the
-- `others`, the entries of the directory that are no directories themselves, such as a link to one.
pub record ProfilesDir : Type 0 where
  pub dirs : BTreeMap Text ProfileDir
  pub writable : Bool
  pub outside : BTreeMap Text MappingFile
  pub writable_outside : Text → Bool
  pub others : Text → Bool

-- The daemon's store together with the directory that it persists to.
pub record ProfileStore : Type 0 where
  pub profiles : BTreeMap Text ProfileMapping
  pub disk : ProfilesDir

pub data ProfileError : Type 0 where
  parsing profile_not_found io unknown_action : Text → ProfileError
  missing_store_path bad_json : ProfileError

abbrev pub new_profile : ProfileMapping
new_profile = record { version = 1; packages = [] }

unfoldable pub manifest_entries : ℕ → BTreeMap Text Text → List ProfileEntry
manifest_entries now [] = []
manifest_entries now ((key, path) ∷ rest) =
    record { name = key; store_path = path; installed_at = now } ∷ manifest_entries now rest

unfoldable pub bootstrap_from_manifest : ℕ → InstallManifest → Option ProfileMapping
unfolding manifest_entries
bootstrap_from_manifest now (packages ps) =
    some (record { version = 1; packages = manifest_entries now ps })
bootstrap_from_manifest now malformed_manifest = none

abbrev bootstrap : ℕ → Option InstallManifest → Option ProfileMapping
bootstrap now none = none
bootstrap now (some manifest) = bootstrap_from_manifest now manifest

abbrev pub load_file :
    ℕ → Text → ProfileDir → Option MappingFile → Result ProfileError (Option ProfileMapping)
load_file now name d none = ok (bootstrap now d.manifest_json)
load_file now name d (some (parsed m)) = ok (some m)
load_file now name d (some malformed) = err (parsing name)

-- What one directory is loaded as.
unfoldable pub load_dir : ℕ → Text → ProfileDir → Result ProfileError (Option ProfileMapping)
unfolding bootstrap_from_manifest
load_dir now name d = load_file now name d d.mapping_json

abbrev pub insert_loaded :
    Text → Option ProfileMapping → BTreeMap Text ProfileMapping → BTreeMap Text ProfileMapping
insert_loaded name none profiles = profiles
insert_loaded name (some m) profiles = BTreeMap.insert name m profiles

unfoldable pub load_loop :
    ℕ
    → BTreeMap Text ProfileDir
    → BTreeMap Text ProfileMapping
    → Result ProfileError (BTreeMap Text ProfileMapping)
unfolding load_dir
load_loop now [] profiles = ok profiles
load_loop now ((name, d) ∷ rest) profiles =
    load_dir now name d >>= λ found. load_loop now rest (insert_loaded name found profiles)

-- Write to a temporary file and rename it over the old one.
unfoldable pub write_mapping :
    Text → ProfileMapping → BTreeMap Text ProfileDir → BTreeMap Text ProfileDir
write_mapping name m dirs = elim (BTreeMap.get name dirs) [
  | none ↦
      BTreeMap.insert name (record { mapping_json = some (parsed m); manifest_json = none }) dirs
  | some d ↦ BTreeMap.insert name (record d { mapping_json = some (parsed m) }) dirs
]

-- `create_dir_all`, `write` and `rename` in the directory that `join` makes of the name.
unfoldable pub write_joined : Text → ProfileMapping → ProfilesDir → Result ProfileError ProfilesDir
unfolding write_mapping is_dir_name
write_joined name m disk =
    if is_dir_name name && not (disk.others name)
    then if disk.writable
      then ok (record disk { dirs = write_mapping name m disk.dirs })
      else err (io name)
    else if disk.writable_outside name
    then ok (record disk { outside = BTreeMap.insert name (parsed m) disk.outside })
    else err (io name)

unfoldable pub persist : ProfileStore → Text → Result ProfileError (Unit {0}) × ProfileStore
unfolding write_joined
persist s name = elim (BTreeMap.get name s.profiles) [
  | none ↦ (err (profile_not_found name), s)
  | some m ↦ elim (write_joined name m s.disk) [
    | err e ↦ (err e, s)
    | ok disk ↦ (ok tt, record s { disk = disk })
  ]
]

-- A profile that was listed without a mapping file is persisted; a failure is only reported.
abbrev pub persist_new : Text → ProfileStore → Option ProfileDir → ProfileStore
persist_new name s none = (persist s name).1
persist_new name s (some d) = elim d.mapping_json [ none ↦ (persist s name).1 | some file ↦ s ]

unfoldable pub persist_missing : List Text → ProfileStore → ProfileStore
unfolding persist
persist_missing [] s = s
persist_missing (name ∷ names) s =
    persist_missing names (persist_new name s (BTreeMap.get name s.disk.dirs))

abbrev pub keys : BTreeMap Text ProfileMapping → List Text
keys [] = []
keys ((k, v) ∷ rest) = k ∷ keys rest

unfoldable pub load : ℕ → ProfilesDir → Result ProfileError ProfileStore
unfolding load_loop persist_missing
load now disk = load_loop now disk.dirs [] >>= λ profiles.
    ok (persist_missing (keys profiles) (record { profiles = profiles; disk = disk }))

unfoldable pub list_profiles : ProfileStore → List Text
list_profiles s = keys s.profiles

unfoldable pub get_or_create : ProfileStore → Text → ProfileMapping
get_or_create s name = elim (BTreeMap.get name s.profiles) [ none ↦ new_profile | some m ↦ m ]

abbrev pub set_profile : Text → ProfileMapping → ProfileStore → ProfileStore
set_profile name m s = record s { profiles = BTreeMap.insert name m s.profiles }

unfoldable pub add_package :
    ProfileStore → Text → Text → Text → ℕ → Result ProfileError (Unit {0}) × ProfileStore
unfolding persist get_or_create Mapping.add
add_package s profile name store_path now =
    persist (set_profile profile (Mapping.add (get_or_create s profile) name store_path now) s)
      profile

abbrev pub answer :
    Result ProfileError (Unit {0}) × ProfileStore → Result ProfileError Bool × ProfileStore
answer (ok u, s) = (ok true, s)
answer (err e, s) = (err e, s)

unfoldable pub remove_package : ProfileStore → Text → Text → Result ProfileError Bool × ProfileStore
unfolding persist Mapping.remove
remove_package s profile name = elim (BTreeMap.get profile s.profiles) [
  | none ↦ (ok false, s)
  | some m ↦
      let (m', removed) = Mapping.remove m name in
      if removed
      then answer (persist (set_profile profile m' s) profile)
      else (ok false, set_profile profile m' s)
]

pub record ControlCommand : Type 0 where
  pub action : Text
  pub name : Text
  pub store_path : Option Text
  pub files : List ManifestEntry

pub data Reply : Type 0 where
  added removed not_found : Text → Reply
  listing : Option ProfileMapping → Reply

abbrev pub Outcome : Type 0
Outcome = Result ProfileError (Reply × Option (Text × List ManifestEntry)) × ProfileStore

abbrev pub attached : Text → List ManifestEntry → Option (Text × List ManifestEntry)
attached store_path [] = none
attached store_path (f ∷ files) = some (store_path, f ∷ files)

abbrev pub added_reply :
    ControlCommand → Text → Result ProfileError (Unit {0}) × ProfileStore → Outcome
added_reply cmd store_path (ok u, s) = (ok (added cmd.name, attached store_path cmd.files), s)
added_reply cmd store_path (err e, s) = (err e, s)

abbrev pub removed_reply : ControlCommand → Result ProfileError Bool × ProfileStore → Outcome
removed_reply cmd (ok true, s) = (ok (removed cmd.name, none), s)
removed_reply cmd (ok false, s) = (ok (not_found cmd.name, none), s)
removed_reply cmd (err e, s) = (err e, s)

abbrev pub run_add : ProfileStore → Text → ControlCommand → ℕ → Option Text → Outcome
run_add s profile cmd now none = (err missing_store_path, s)
run_add s profile cmd now (some store_path) =
    added_reply cmd store_path (add_package s profile cmd.name store_path now)

-- The command is what serde makes of the JSON text.
unfoldable pub process_control : ProfileStore → Text → Option ControlCommand → ℕ → Outcome
unfolding add_package remove_package
process_control s profile none now = (err bad_json, s)
process_control s profile (some cmd) now =
    if text_eq cmd.action (bytes "add")
    then run_add s profile cmd now cmd.store_path
    else if text_eq cmd.action (bytes "remove")
    then removed_reply cmd (remove_package s profile cmd.name)
    else if text_eq cmd.action (bytes "list")
    then (ok (listing (BTreeMap.get profile s.profiles), none), s)
    else (err (unknown_action cmd.action), s)
