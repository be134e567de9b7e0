-- ===== src/Store/Gc.antt =====
-- `garbage_collect` of snix-redox/src/store.rs: mark and sweep over the metadata database and the
-- store directory.
pub mod Deletion
pub mod Safety
pub mod Complete
use nix_redox.Base.{
  ℕ, ◌+◌, ◌%◌, ◌^◌, Text, Bool, true, false, Option, none, some, List, [], ◌∷◌, length, Result, ok,
  err, ◌>>=◌, if◌then◌else◌,
}
use nix_redox.Base.Strings.{text_key}
use nix_redox.Base.BTreeMap
use nix_redox.Base.BTreeMap.{BTreeMap}
use nix_redox.Base.BTreeSet
use nix_redox.PathInfo
use nix_redox.PathInfo.{PathInfoError, PathInfoDb}
use nix_redox.Store.Roots.{GcRoots, compute_live_set}

-- A file, directory or symbolic link of the store: its recursive size, whether it can be removed, and
-- for a link what it leads to. It is removed whole or not at all.
pub record DiskNode : Type 0 where
  pub size : ℕ
  pub removable : Bool
  pub link : Option Text

-- `leads_to` says of the target of a link whether there is anything, given what is in the store, and its
-- size.
pub record Machine : Type 0 where
  pub db : PathInfoDb
  pub disk : BTreeMap Text DiskNode
  pub leads_to : BTreeMap Text DiskNode → Text → Option ℕ

pub record GcStats : Type 0 where
  pub paths_deleted : ℕ
  pub bytes_freed : ℕ
  pub paths_kept : ℕ

pub data GcError : Type 0 where
  metadata : PathInfoError → GcError
  io : Text → GcError

abbrev or_zero : Option ℕ → ℕ
or_zero none = 0
or_zero (some n) = n

-- `path_size(path).unwrap_or(0)`, which follows links.
unfoldable pub path_size : Machine → Text → ℕ
path_size m path = elim (BTreeMap.get path m.disk) [
  | none ↦ 0
  | some node ↦ elim node.link [
    | none ↦ node.size
    | some target ↦ or_zero (m.leads_to m.disk target)
  ]
]

abbrev is_some : Option ℕ → Bool
is_some none = false
is_some (some n) = true

-- `exists` follows links.
unfoldable pub exists : Machine → DiskNode → Bool
exists m node = elim node.link [ none ↦ true | some target ↦ is_some (m.leads_to m.disk target) ]

-- `if p.exists() { remove_dir_all or remove_file }`: a link that leads nowhere is left.
unfoldable pub remove_from_disk : Machine → Text → Result GcError Machine
unfolding exists
remove_from_disk m path = elim (BTreeMap.get path m.disk) [
  | none ↦ ok m
  | some node ↦
      if exists m node
      then if node.removable
        then ok (record m { disk = BTreeMap.remove path m.disk })
        else err (io path)
      else ok m
]

unfoldable pub count_deleted : GcStats → ℕ → GcStats
count_deleted stats size = record stats {
  paths_deleted = (stats.paths_deleted + 1) % 2 ^ 32;
  bytes_freed = (stats.bytes_freed + size) % 2 ^ 64;
}

module _ (digest : Text → Option Text) where
  -- The store path goes first, then its metadata. A failure leaves what was done before it.
  unfoldable pub delete_path : Machine → Text → Result GcError (Unit {0}) × Machine
  delete_path m path = elim (remove_from_disk m path) [
    | err e ↦ (err e, m)
    | ok m' ↦ elim (PathInfo.delete digest m'.db path) [
      | err e ↦ (err (metadata e), m')
      | ok db' ↦ (ok tt, record m' { db = db' })
    ]
  ]

  unfoldable pub sweep : Bool → Machine → GcStats → List Text → Result GcError GcStats × Machine
  sweep dry_run m stats [] = (ok stats, m)
  sweep true m stats (path ∷ dead) = sweep true m (count_deleted stats (path_size m path)) dead
  sweep false m stats (path ∷ dead) =
      let (r, m') = delete_path m path in
      elim r [
        | err e ↦ (err e, m')
        | ok _ ↦ sweep false m' (count_deleted stats (path_size m path)) dead
      ]

  unfoldable pub garbage_collect : Machine → GcRoots → Bool → Result GcError GcStats × Machine
  garbage_collect m roots dry_run = elim (PathInfo.all_paths_set m.db) [
    | err e ↦ (err (metadata e), m)
    | ok all_paths ↦
        let live = compute_live_set digest m.db roots in
        sweep dry_run m
          (record { paths_deleted = 0; bytes_freed = 0; paths_kept = length live % 2 ^ 32 })
          (BTreeSet.difference all_paths live)
  ]
