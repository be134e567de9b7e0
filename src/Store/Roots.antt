-- ===== src/Store/Roots.antt =====
-- GC roots of snix-redox/src/store.rs: symlinks in one directory, by name, and the set of paths
-- that they keep alive.
pub mod Live
use nix_redox.Base.{
  Text, Bool, true, false, Option, none, some, List, [], ◌∷◌, Result, ok, err, ◌>>=◌, if◌then◌else◌,
}
use nix_redox.Base.Strings.{text_key}
use nix_redox.Base.BTreeMap
use nix_redox.Base.BTreeMap.{BTreeMap}
use nix_redox.Base.BTreeSet
use nix_redox.PathInfo
use nix_redox.PathInfo.{PathInfoDb}
use nix_redox.Store.Closure.{Closure, compute_closure}

-- An entry of the directory: a symlink with its target, or a file that `read_link` fails on. The
-- directory can be read and written, and the name of a root is the name of a file in it.
pub data RootEntry : Type 0 where
  symlink : Text → RootEntry
  other : RootEntry

abbrev pub GcRoots : Type 0
GcRoots = BTreeMap Text RootEntry

pub record GcRoot : Type 0 where
  pub name : Text
  pub target : Text

pub data RootError : Type 0 where
  invalid_store_path root_not_found : Text → RootError

unfoldable pub list_roots : GcRoots → List GcRoot
list_roots [] = []
list_roots ((name, symlink target) ∷ rest) =
    record { name = name; target = target } ∷ list_roots rest
list_roots ((name, other) ∷ rest) = list_roots rest

unfoldable pub remove_root : Text → GcRoots → Result RootError GcRoots
remove_root name roots =
    if BTreeMap.contains_key name roots
    then ok (BTreeMap.remove name roots)
    else err (root_not_found name)

module _ (digest : Text → Option Text) where
  -- An old link of the name is unlinked first.
  unfoldable pub add_root : Text → Text → GcRoots → Result RootError GcRoots
  add_root name store_path roots = elim (digest store_path) [
    | none ↦ err (invalid_store_path store_path)
    | some hash ↦
        let cleared =
          if BTreeMap.contains_key name roots then BTreeMap.remove name roots else roots in
        ok (BTreeMap.insert name (symlink store_path) cleared)
  ]

  -- What one root adds. A dangling root, and one whose closure fails, are skipped with a warning.
  unfoldable pub extend_live : PathInfoDb → List Text → Text → List Text
  extend_live db live target =
      if PathInfo.is_registered digest db target
      then elim (compute_closure digest db target) [
        | ok closure ↦ BTreeSet.extend live closure.paths
        | err e ↦ live
      ]
      else live

  unfoldable pub live_loop : PathInfoDb → List Text → List GcRoot → List Text
  unfolding extend_live
  live_loop db live [] = live
  live_loop db live (root ∷ roots) = live_loop db (extend_live db live root.target) roots

  unfoldable pub compute_live_set : PathInfoDb → GcRoots → List Text
  unfolding live_loop
  compute_live_set db roots = live_loop db [] (list_roots roots)
