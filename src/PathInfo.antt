-- ===== src/PathInfo.antt =====
-- snix-redox/src/pathinfo.rs: the metadata database of the local store, one JSON file for each
-- store path, named by the hash part of the path. The parser of store paths (nix-compat) is the
-- parameter `digest`; a file is what serde makes of its content.
mod Examples
pub mod Laws
pub mod Keyed
use nix_redox.Base.{
  ℕ, ◌+◌, ◌-◌, ◌*◌, ◌/◌, ltb, leb, Text, Bool, true, false, Option, none, some, List, [], ◌∷◌,
}
use nix_redox.Base.{Result, ok, err, ◌>>=◌, ok_or, if◌then◌else◌}
use nix_redox.Base.Strings.{text_key}
use nix_redox.Base.BTreeMap
use nix_redox.Base.BTreeMap.{BTreeMap}
use nix_redox.Base.BTreeSet
use nix_redox.Nar.{ManifestEntry}

pub record PathInfo : Type 0 where
  pub store_path : Text
  pub nar_hash : Text
  pub nar_size : ℕ
  pub references : List Text
  pub deriver : Option Text
  pub registration_time : Text
  pub signatures : List Text
  pub files : List ManifestEntry

-- The subject of the message is kept, its wording is not.
pub data PathInfoError : Type 0 where
  invalid_path io corrupt : Text → PathInfoError

-- A metadata file: it parses, it does not, or it cannot be read.
pub data InfoFile : Type 0 where
  valid : PathInfo → InfoFile
  garbled : InfoFile
  unreadable : InfoFile

-- The directory: the files by the stem of their name, and whether they can be written and deleted.
pub record PathInfoDb : Type 0 where
  pub stored : BTreeMap Text InfoFile
  pub writable : Bool

abbrev pub parse_file : Text → InfoFile → Result PathInfoError (Option PathInfo)
parse_file hash (valid info) = ok (some info)
parse_file hash garbled = err (corrupt hash)
parse_file hash unreadable = err (io hash)

-- The body of the loop of `list_paths`.
collect_paths : BTreeMap Text InfoFile → Result PathInfoError (List Text)
collect_paths [] = ok []
collect_paths ((hash, valid info) ∷ rest) =
    collect_paths rest >>= λ paths. ok (info.store_path ∷ paths)
collect_paths ((hash, garbled) ∷ rest) = collect_paths rest
collect_paths ((hash, unreadable) ∷ rest) = err (io hash)

module _ (digest : Text → Option Text) where
  unfoldable pub store_path_hash : Text → Result PathInfoError Text
  store_path_hash path = ok_or (digest path) (invalid_path path)

  unfoldable pub get : PathInfoDb → Text → Result PathInfoError (Option PathInfo)
  unfolding store_path_hash
  get db path = do
    hash ← store_path_hash path
    elim (BTreeMap.get hash db.stored) [ none ↦ ok none | some file ↦ parse_file hash file ]

  unfoldable pub register : PathInfoDb → PathInfo → Result PathInfoError PathInfoDb
  unfolding store_path_hash
  register db info = do
    hash ← store_path_hash info.store_path
    let with_info = record db { stored = BTreeMap.insert hash (valid info) db.stored }
    if db.writable then ok with_info else err (io hash)

  unfoldable pub is_registered : PathInfoDb → Text → Bool
  unfolding store_path_hash
  is_registered db path = elim (store_path_hash path) [
    | ok hash ↦ BTreeMap.contains_key hash db.stored
    | err e ↦ false
  ]

  unfoldable pub delete : PathInfoDb → Text → Result PathInfoError PathInfoDb
  unfolding store_path_hash
  delete db path = do
    hash ← store_path_hash path
    let without = record db { stored = BTreeMap.remove hash db.stored }
    if BTreeMap.contains_key hash db.stored
        then (if db.writable then ok without else err (io hash))
        else ok db

unfoldable pub list_paths : PathInfoDb → Result PathInfoError (List Text)
unfolding collect_paths
list_paths db = collect_paths db.stored >>= λ paths. ok (BTreeSet.sort paths)

unfoldable pub all_paths_set : PathInfoDb → Result PathInfoError (List Text)
all_paths_set db = list_paths db >>= λ paths. ok (BTreeSet.extend [] paths)

-- `days_to_date`: the civil date (year, month, day) of a day count from 1970-01-01.
unfoldable pub days_to_date : ℕ → ℕ × ℕ × ℕ
days_to_date days =
    let z = days + 719468 in
    let era = z / 146097 in
    let doe = z - era * 146097 in
    let yoe = (doe - doe / 1460 + doe / 36524 - doe / 146096) / 365 in
    let y = yoe + era * 400 in
    let doy = doe - (365 * yoe + yoe / 4 - yoe / 100) in
    let mp = (5 * doy + 2) / 153 in
    let d = doy - (153 * mp + 2) / 5 + 1 in
    let m = if ltb mp 10 then mp + 3 else mp - 9 in
    let y' = if leb m 2 then y + 1 else y in (y', m, d)
