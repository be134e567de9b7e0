-- ===== src/Profile/Mapping.antt =====
-- The mapping of one profile: `ProfileMapping` of snix-redox/src/profiled/mapping.rs.
pub mod Laws
pub mod Resolution
pub mod Union
use nix_redox.Base.{
  ℕ, Text, bytes, Bool, true, false, not, ◌&&◌, Option, none, some, List, [], ◌∷◌, ◌++◌, length,
  ltb, if◌then◌else◌,
}
use nix_redox.Base.Strings.{text_key, text_eq}
use nix_redox.Base.Slices.{is_empty, trim_end, strip_prefix, split_once}
use nix_redox.Base.FilePath.{join}
use nix_redox.Base.BTreeMap
use nix_redox.Base.BTreeMap.{BTreeMap}
use nix_redox.Nar.{ManifestEntry}

pub record ProfileEntry : Type 0 where
  pub name : Text
  pub store_path : Text
  pub installed_at : ℕ

pub record ProfileMapping : Type 0 where
  pub version : ℕ
  pub packages : List ProfileEntry

-- `retain(|p| p.name != name)`
unfoldable pub retain_other : Text → List ProfileEntry → List ProfileEntry
retain_other name [] = []
retain_other name (p ∷ ps) =
    let rest = retain_other name ps in if text_eq p.name name then rest else p ∷ rest

unfoldable pub add : ProfileMapping → Text → Text → ℕ → ProfileMapping
unfolding retain_other
add m name store_path now = record m {
  packages =
      retain_other name m.packages
      ++ (record { name = name; store_path = store_path; installed_at = now } ∷ []);
}

unfoldable pub remove : ProfileMapping → Text → ProfileMapping × Bool
unfolding retain_other
remove m name =
    let kept = retain_other name m.packages in
    (record m { packages = kept }, ltb (length kept) (length m.packages))

unfoldable pub find_package : Text → List ProfileEntry → Option ProfileEntry
find_package name [] = none
find_package name (p ∷ ps) = if text_eq p.name name then some p else find_package name ps

unfoldable pub get : ProfileMapping → Text → Option ProfileEntry
unfolding find_package
get m name = find_package name m.packages

pub record ResolvedFile : Type 0 where
  pub package_name : Text
  pub store_path : Text
  pub full_path : Text

-- The loop runs over the packages in reverse: the answer of the later packages comes first.
unfoldable pub resolve_last : (Text → Bool) → Text → List ProfileEntry → Option ResolvedFile
resolve_last exists subpath [] = none
resolve_last exists subpath (p ∷ ps) = elim (resolve_last exists subpath ps) [
  | some file ↦ some file
  | none ↦
      if exists (join p.store_path subpath)
      then some (record {
        package_name = p.name;
        store_path = p.store_path;
        full_path = join p.store_path subpath;
      })
      else none
]

unfoldable pub resolve_path : (Text → Bool) → ProfileMapping → Text → Option ResolvedFile
unfolding resolve_last
resolve_path exists m subpath = resolve_last exists subpath m.packages

pub record UnionEntry : Type 0 where
  pub name : Text
  pub is_dir : Bool
  pub is_symlink : Bool
  pub from_package : Text

-- An entry of a directory on disk.
pub record DirItem : Type 0 where
  pub name : Text
  pub is_dir : Bool
  pub is_symlink : Bool

abbrev pub Seen : Type 0
Seen = BTreeMap Text UnionEntry

unfoldable pub insert_items : Text → List DirItem → Seen → Seen
insert_items owner [] seen = seen
insert_items owner (i ∷ items) seen = insert_items owner items (
    BTreeMap.insert i.name
      (record { name = i.name; is_dir = i.is_dir; is_symlink = i.is_symlink; from_package = owner })
      seen)

-- `read_dir` lists a directory, and nothing where there is none or it cannot be read.
unfoldable pub union_loop : (Text → List DirItem) → Text → List ProfileEntry → Seen → Seen
unfolding insert_items
union_loop read_dir subpath [] seen = seen
union_loop read_dir subpath (p ∷ ps) seen =
    union_loop read_dir subpath ps (insert_items p.name (read_dir (join p.store_path subpath)) seen)

-- The values in key order, which is the order of the names.
abbrev pub into_values : Seen → List UnionEntry
into_values [] = []
into_values ((k, v) ∷ rest) = v ∷ into_values rest

unfoldable pub list_union : (Text → List DirItem) → ProfileMapping → Text → List UnionEntry
unfolding union_loop
list_union read_dir m subpath = into_values (union_loop read_dir subpath m.packages [])

-- The prefix of the manifest paths below a subpath.
unfoldable pub prefix_of : Text → Text
prefix_of subpath = if is_empty subpath then [] else trim_end b'/' subpath ++ (b'/' ∷ [])

unfoldable pub or_insert : Text → UnionEntry → Seen → Seen
or_insert k v seen = if BTreeMap.contains_key k seen then seen else BTreeMap.insert k v seen

-- What one manifest entry, with the prefix taken off, adds: the directory that it lies in, or itself.
unfoldable pub insert_child : Text → ManifestEntry → Text → Seen → Seen
unfolding or_insert
insert_child owner m rel seen = elim (split_once b'/' rel) [
  | some (dir_name, _) ↦
      or_insert dir_name
        (record { name = dir_name; is_dir = true; is_symlink = false; from_package = owner }) seen
  | none ↦
      if is_empty rel
      then seen
      else BTreeMap.insert rel
          (record {
            name = rel;
            is_dir = text_eq m.entry_type (bytes "dir");
            is_symlink = text_eq m.entry_type (bytes "symlink");
            from_package = owner;
          })
          seen
]

unfoldable pub insert_manifest : Text → Text → List ManifestEntry → Seen → Seen
unfolding insert_child
insert_manifest owner prefix [] seen = seen
insert_manifest owner prefix (m ∷ ms) seen =
    insert_manifest owner prefix ms
      (elim (strip_prefix prefix m.path) [ none ↦ seen | some rel ↦ insert_child owner m rel seen ])

unfoldable pub manifests_loop :
    BTreeMap Text (List ManifestEntry) → Text → List ProfileEntry → Seen → Seen
unfolding insert_manifest
manifests_loop manifests prefix [] seen = seen
manifests_loop manifests prefix (p ∷ ps) seen =
    manifests_loop manifests prefix ps (elim (BTreeMap.get p.store_path manifests) [
      | none ↦ seen
      | some manifest ↦ insert_manifest p.name prefix manifest seen
    ])

unfoldable pub list_union_from_manifests :
    ProfileMapping → Text → BTreeMap Text (List ManifestEntry) → List UnionEntry
unfolding manifests_loop prefix_of
list_union_from_manifests m subpath manifests =
    into_values (manifests_loop manifests (prefix_of subpath) m.packages [])
