-- ===== src/Profile/Scheme.antt =====
-- The profile daemon: `ProfileDaemon` of snix-redox/src/profiled/mod.rs, and the requests of
-- snix-redox/src/profiled/scheme.rs. `preload` reads a file for the handle table, and `parse` reads a
-- command from the bytes that were written to `.control`.
pub mod Control
mod Examples
pub mod Listing
use nix_redox.Base.{
  ℕ, zero, suc, ◌+◌, ◌&&◌, ◌||◌, Text, bytes, Bool, true, false, not, leb, min, Option, none, some,
  List, [], ◌∷◌, ◌++◌, length, take, drop, Result, ok, err, ◌>>=◌, if◌then◌else◌,
}
use nix_redox.Base.Strings.{text_key, nat_key, text_eq}
use nix_redox.Base.Slices.{trim, split_once, is_empty}
use nix_redox.Base.FilePath.{join}
use nix_redox.Base.BTreeMap
use nix_redox.Base.BTreeMap.{BTreeMap}
use nix_redox.Nar.{ManifestEntry}
use nix_redox.PathInfo
use nix_redox.PathInfo.{PathInfo, PathInfoDb}
use nix_redox.Profile.Mapping.{ProfileEntry, ProfileMapping, UnionEntry, list_union_from_manifests}
use nix_redox.Profile.Persistence.{
  ProfilesDir, ProfileStore, ProfileError, ControlCommand, Reply, Outcome, load, list_profiles,
  process_control,
}
use nix_redox.Profile.Handles
use nix_redox.Profile.Handles.{
  Handle, file, dir, control, HandleTable, HandleError, open_dir, open_control, open_file_lazy,
  close, file_size,
}

abbrev pub Manifests : Type 0
Manifests = BTreeMap Text (List ManifestEntry)

pub record ProfileDaemon : Type 0 where
  pub profiles : ProfileStore
  pub manifests : Manifests

pub record Handler : Type 0 where
  pub daemon : ProfileDaemon
  pub handles : HandleTable

pub data Errno : Type 0 where
  eacces ebadf enoent enotdir : Errno

abbrev keep_manifest : Text → Option PathInfo → Manifests → Manifests
keep_manifest path none manifests = manifests
keep_manifest path (some info) manifests =
    if is_empty info.files then manifests else BTreeMap.insert path info.files manifests

abbrev found_info {ℓ} : {E : Type ℓ} → Result E (Option PathInfo) → Option PathInfo
found_info (ok found) = found
found_info (err e) = none

module _ (digest : Text → Option Text) (db : PathInfoDb) where
  unfoldable pub package_manifests : List ProfileEntry → Manifests → Manifests
  package_manifests [] manifests = manifests
  package_manifests (pkg ∷ pkgs) manifests = package_manifests pkgs (
      if BTreeMap.contains_key pkg.store_path manifests
      then manifests
      else keep_manifest pkg.store_path (found_info (PathInfo.get digest db pkg.store_path))
          manifests)

  unfoldable pub load_manifests : BTreeMap Text ProfileMapping → Manifests → Manifests
  unfolding package_manifests
  load_manifests [] manifests = manifests
  load_manifests ((name, mapping) ∷ rest) manifests =
      load_manifests rest (package_manifests mapping.packages manifests)

  -- `ProfileDaemon::new`, with the database opened.
  unfoldable pub new_daemon : ℕ → ProfilesDir → Result ProfileError ProfileDaemon
  unfolding load load_manifests
  new_daemon now disk = load now disk >>= λ profiles.
      ok (record { profiles = profiles; manifests = load_manifests profiles.profiles [] })

abbrev named : Option (Text × Text) → Text → Option Text × Text
named none path = (some path, [])
named (some (name, sub)) path = (some name, sub)

unfoldable pub parse_path : Text → Option Text × Text
parse_path path =
    let trimmed = trim b'/' path in
    if is_empty trimmed then (none, []) else named (split_once b'/' trimmed) trimmed

-- `find` over a manifest.
unfoldable pub find_file : Text → List ManifestEntry → Option ManifestEntry
find_file subpath [] = none
find_file subpath (e ∷ es) =
    if text_eq e.path subpath && text_eq e.entry_type (bytes "file")
    then some e
    else find_file subpath es

abbrev offered : Text → ProfileEntry → Option (List ManifestEntry) → Option (Text × ManifestEntry)
offered subpath pkg none = none
offered subpath pkg (some manifest) = elim (find_file subpath manifest) [
  | none ↦ none
  | some e ↦ some (join pkg.store_path subpath, e)
]

-- The loop runs over the packages in reverse: the answer of the later packages comes first.
unfoldable pub find_in_manifests :
    Manifests → Text → List ProfileEntry → Option (Text × ManifestEntry)
unfolding find_file
find_in_manifests manifests subpath [] = none
find_in_manifests manifests subpath (pkg ∷ pkgs) = elim (find_in_manifests manifests subpath pkgs) [
  | some found ↦ some found
  | none ↦ offered subpath pkg (BTreeMap.get pkg.store_path manifests)
]

-- The answer of an open: a number, where the handle table has one to give.
abbrev opened : ProfileDaemon → Option ℕ × HandleTable → Result Errno (Option ℕ) × Handler
opened d (id, handles) = (ok id, record { daemon = d; handles = handles })

abbrev open_found :
    Handler → Text → Option (Text × ManifestEntry) → Result Errno (Option ℕ) × Handler
open_found s path none = (err enoent, s)
open_found s path (some (full_path, entry)) =
    opened s.daemon (open_file_lazy s.handles full_path path entry.size entry.executable)

abbrev open_in :
    Handler → Text → Text → Text → Option ProfileMapping → Result Errno (Option ℕ) × Handler
open_in s path name sub none = (err enoent, s)
open_in s path name sub (some mapping) =
    if is_empty (list_union_from_manifests mapping sub s.daemon.manifests)
    then open_found s path (find_in_manifests s.daemon.manifests sub mapping.packages)
    else opened s.daemon (open_dir s.handles path name sub)

abbrev open_parsed : Handler → Text → Bool → Option Text × Text → Result Errno (Option ℕ) × Handler
open_parsed s path directory (none, sub) = opened s.daemon (open_dir s.handles [] [] [])
open_parsed s path directory (some name, sub) =
    if text_eq sub (bytes ".control")
    then opened s.daemon (open_control s.handles name path)
    else if is_empty sub || directory
    then opened s.daemon (open_dir s.handles path name sub)
    else open_in s path name sub (BTreeMap.get name s.daemon.profiles.profiles)

unfoldable pub scheme_root : Handler → Option ℕ × Handler
scheme_root s =
    let (id, handles) = open_dir s.handles [] [] [] in (id, record s { handles = handles })

-- `directory` is the flag O_DIRECTORY.
unfoldable pub openat : Handler → Text → Bool → Result Errno (Option ℕ) × Handler
unfolding parse_path find_in_manifests
openat s path directory =
    let trimmed = trim b'/' path in open_parsed s trimmed directory (parse_path trimmed)

abbrev as_errno {ℓ} : {A : Type ℓ} → Errno → Result HandleError A → Result Errno A
as_errno e (ok a) = ok a
as_errno e (err x) = err e

unfoldable pub read :
    (Text → Option (List ℕ)) → Handler → ℕ → ℕ → ℕ → Result Errno (List ℕ) × Handler
read preload s id len offset =
    let (r, handles) = Handles.read preload s.handles id len offset in
    (as_errno ebadf r, record s { handles = handles })

unfoldable pub write : Handler → ℕ → List ℕ → Result Errno ℕ × Handler
write s id buf =
    let (r, handles) = Handles.write s.handles id buf in
    (as_errno eacces r, record s { handles = handles })

unfoldable pub fsize : Handler → ℕ → Result Errno ℕ
fsize s id = elim (file_size s.handles id) [ none ↦ err ebadf | some n ↦ ok n ]

abbrev full_path : Text → Text
full_path path = if is_empty path then bytes "/scheme/profile" else bytes "/scheme/profile/" ++ path

unfoldable pub fpath : Handler → ℕ → ℕ → Result Errno Text
fpath s id len = elim (Handles.scheme_path s.handles id) [
  | none ↦ err ebadf
  | some path ↦ ok (take (min (length (full_path path)) len) (full_path path))
]

pub data EventFlags : Type 0 where
  event_read event_write : EventFlags

abbrev events_of : Handle → EventFlags
events_of (file fh) = event_read
events_of (dir dh) = event_read
events_of (control ch) = event_write

unfoldable pub fevent : Handler → ℕ → Result Errno EventFlags
fevent s id = elim (BTreeMap.get id s.handles.handles) [
  | none ↦ err ebadf
  | some h ↦ ok (events_of h)
]

-- Size and mode.
abbrev stat_of : Handle → ℕ × ℕ
stat_of (file fh) = (fh.size, if fh.executable then 33133 else 33060)
stat_of (dir dh) = (0, 16749)
stat_of (control ch) = (0, 32914)

unfoldable pub fstat : Handler → ℕ → Result Errno (ℕ × ℕ)
fstat s id = elim (BTreeMap.get id s.handles.handles) [ none ↦ err ebadf | some h ↦ ok (stat_of h) ]

-- A command of `.control` is carried out; the manifest that came with it is kept.
abbrev store_files : Option (Text × List ManifestEntry) → Manifests → Manifests
store_files none manifests = manifests
store_files (some (path, files)) manifests = BTreeMap.insert path files manifests

abbrev after_control : Manifests → Outcome → ProfileDaemon
after_control manifests (ok (reply, files), profiles) = record {
  profiles = profiles;
  manifests = store_files files manifests;
}
after_control manifests (err e, profiles) = record { profiles = profiles; manifests = manifests }

module _ (parse : List ℕ → Option ControlCommand) where
  abbrev pub run_command : ℕ → ProfileDaemon → Option Handle → ProfileDaemon
  run_command now d none = d
  run_command now d (some (file fh)) = d
  run_command now d (some (dir dh)) = d
  run_command now d (some (control ch)) =
      if is_empty ch.buffer
      then d
      else after_control d.manifests
          (process_control d.profiles ch.profile_name (parse ch.buffer) now)

  unfoldable pub on_close : ℕ → Handler → ℕ → Handler
  on_close now s id =
      let (h, handles) = close s.handles id in
      record { daemon = run_command now s.daemon h; handles = handles }
