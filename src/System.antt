-- ===== src/System.antt =====
-- The generations of a system: the manifest and the generation directories of
-- snix-redox/src/system.rs. A manifest has its sections that generations and activation use.
mod Examples
pub mod Selector
pub mod Numbering
pub mod Timestamps
pub mod Roots
pub mod Deletion
use nix_redox.Base.{
  ℕ, zero, suc, ◌+◌, ◌%◌, ◌^◌, ltb, leb, Text, Bool, true, false, Option, none, some, List, [], ◌∷◌,
  Result, ok, err, if◌then◌else◌,
}
use nix_redox.Base.BTreeMap.{BTreeMap}
use nix_redox.Base.Decimal.{parse_unsigned}
use nix_redox.Base.Words.{trim_white}
use nix_redox.Base.Slices.{is_empty}
use nix_redox.Store.Roots.{GcRoots}

pub record GenerationInfo : Type 0 where
  pub id : ℕ
  pub build_hash : Text
  pub description : Text
  pub timestamp : Text

pub record Package : Type 0 where
  pub name : Text
  pub version : Text
  pub store_path : Text

pub record BootComponents : Type 0 where
  pub kernel : Option Text
  pub initfs : Option Text
  pub bootloader : Option Text

pub record User : Type 0 where
  pub uid : ℕ
  pub gid : ℕ
  pub home : Text
  pub shell : Text

pub record ServiceInfo : Type 0 where
  pub description : Text
  pub command : Text
  pub svc_type : Text
  pub args : Text
  pub wanted_by : Text
  pub environment : BTreeMap Text Text
  pub after : List Text

pub record Services : Type 0 where
  pub declared : BTreeMap Text ServiceInfo
  pub init_scripts : List Text
  pub startup_script : Text

pub record ActivationScript : Type 0 where
  pub name : Text
  pub deps : List Text

pub record FileInfo : Type 0 where
  pub blake3 : Text
  pub size : ℕ
  pub mode : Text
  pub text : Option Text

pub record Manifest : Type 0 where
  pub generation : GenerationInfo
  pub boot : Option BootComponents
  pub packages : List Package
  pub users : BTreeMap Text User
  pub services : Services
  pub activation_scripts : List ActivationScript
  pub files : BTreeMap Text FileInfo
  pub toplevel : Option Text
  pub etc_source : Option Text

-- A file `manifest.json`: none, one that serde refuses, or a manifest.
pub data ManifestFile : Type 0 where
  missing invalid : ManifestFile
  parsed : Manifest → ManifestFile

pub data SystemError : Type 0 where
  manifest_not_found invalid_manifest zero_keep_count panic : SystemError
  invalid_boot_default invalid_keep_count invalid_day_count invalid_selector : Text → SystemError

-- The files of a system: the entries of the directory of generations by name, with the manifest in
-- each, the current manifest, the marker of the boot default, and the roots. `unlinks` says of a root
-- whether the file system lets it be removed.
pub record Files : Type 0 where
  pub generations : BTreeMap Text ManifestFile
  pub current : ManifestFile
  pub boot_default : Option Text
  pub roots : GcRoots
  pub unlinks : Text → Bool

unfoldable pub load_manifest_from : ManifestFile → Result SystemError Manifest
load_manifest_from missing = err manifest_not_found
load_manifest_from invalid = err invalid_manifest
load_manifest_from (parsed m) = ok m

-- `path` is the name of the directory.
pub record Generation : Type 0 where
  pub id : ℕ
  pub manifest : Manifest
  pub path : Text

abbrev pub found : Text → Manifest → Option ℕ → List Generation → List Generation
found name m none gens = gens
found name m (some id) gens = record { id = id; manifest = m; path = name } ∷ gens

-- The entries that are named by a number and have a manifest that can be read.
unfoldable pub read_generations : BTreeMap Text ManifestFile → List Generation
read_generations [] = []
read_generations ((name, missing) ∷ rest) = read_generations rest
read_generations ((name, invalid) ∷ rest) = read_generations rest
read_generations ((name, parsed m) ∷ rest) =
    found name m (parse_unsigned (2 ^ 32) name) (read_generations rest)

-- `sort_by_key`
unfoldable pub insert_by_id : Generation → List Generation → List Generation
insert_by_id g [] = g ∷ []
insert_by_id g (h ∷ hs) =
    let rest = insert_by_id g hs in if leb g.id h.id then g ∷ h ∷ hs else h ∷ rest

unfoldable pub sort_by_id : List Generation → List Generation
unfolding insert_by_id
sort_by_id [] = []
sort_by_id (g ∷ gs) = insert_by_id g (sort_by_id gs)

unfoldable pub scan_generations : BTreeMap Text ManifestFile → List Generation
unfolding read_generations sort_by_id
scan_generations dir = sort_by_id (read_generations dir)

abbrev pub max : ℕ → ℕ → ℕ
max a b = if ltb a b then b else a

unfoldable pub max_id : List Generation → ℕ
max_id [] = 0
max_id (g ∷ gs) = max g.id (max_id gs)

-- The highest id and one, as a u32.
unfoldable pub next_generation_id : BTreeMap Text ManifestFile → Manifest → ℕ
unfolding scan_generations max_id
next_generation_id dir current =
    (max (max_id (scan_generations dir)) current.generation.id + 1) % 2 ^ 32

abbrev marked : Text → Result SystemError (Option ℕ)
marked content = if is_empty content then ok none else elim (parse_unsigned (2 ^ 32) content) [
  | none ↦ err (invalid_boot_default content)
  | some id ↦ ok (some id)
]

unfoldable pub read_boot_default : Option Text → Result SystemError (Option ℕ)
unfolding trim_white
read_boot_default none = ok none
read_boot_default (some content) = marked (trim_white content)
