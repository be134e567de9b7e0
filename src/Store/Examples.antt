-- ===== src/Store/Examples.antt =====
-- The store at work: two paths that refer to each other, one of them a root, and a path that is
-- not needed.
use nix_redox.Base.{
  ℕ, ◌*◌, ◌%◌, ◌^◌, Text, bytes, Bool, true, false, Option, none, some, List, [], ◌∷◌, length,
  Result, ok, err, if◌then◌else◌, ◌≡◌, ◌≢◌, ◌↔◌, refl, arith,
}
use nix_redox.Base.Strings.{text_key, text_eq}
use nix_redox.Base.BTreeMap
use nix_redox.Base.BTreeSet
use nix_redox.PathInfo
use nix_redox.PathInfo.{PathInfo, PathInfoDb, valid, all_paths_set}
use nix_redox.PathInfo.Keyed.{IsKeyed}
use nix_redox.Store.Closure.{
  Closure, StoreError, not_registered, out_of_fuel, compute_closure, require,
}
use nix_redox.Store.Closure.Termination.{compute_closure-ends}
use nix_redox.Store.Closure.Exact.{Reach, here, via, compute_closure_exact, compute_closure-error}
use nix_redox.Store.Roots.{GcRoots, symlink, list_roots, add_root, remove_root, compute_live_set}
use nix_redox.Store.Roots.Live.{Keeps, targets, compute_live_set_exact}
use nix_redox.Store.Gc.{DiskNode, Machine, GcStats, garbage_collect}
use nix_redox.Store.Gc.Safety.{SamePath, garbage_collect-SamePath}
use nix_redox.Store.Gc.Complete.{Gone, garbage_collect-Gone}

-- The hash of a path is its first byte.
abbrev pub first_byte : Text → Option Text
first_byte [] = none
first_byte (c ∷ cs) = some (c ∷ [])

abbrev pub lib_path : Text
lib_path = 97 ∷ []

abbrev pub app_path : Text
app_path = 98 ∷ []

abbrev old_path : Text
old_path = 99 ∷ []

abbrev pub info_of : Text → List Text → PathInfo
info_of path references = record {
  store_path = path;
  nar_hash = [];
  nar_size = 10;
  references = references;
  deriver = none;
  registration_time = [];
  signatures = [];
  files = [];
}

abbrev pub db : PathInfoDb
db = record {
  stored =
      (lib_path, valid (info_of lib_path (app_path ∷ [])))
      ∷ (app_path, valid (info_of app_path (lib_path ∷ [])))
      ∷ (old_path, valid (info_of old_path []))
      ∷ [];
  writable = true;
}

abbrev pub machine : Machine
machine = record {
  db = db;
  disk =
      (lib_path, record { size = 3; removable = true; link = none })
      ∷ (app_path, record { size = 4; removable = true; link = none })
      ∷ (old_path, record { size = 5; removable = true; link = none })
      ∷ [];
  leads_to = λ disk target. none;
}

abbrev roots : GcRoots
roots = (bytes "app", symlink app_path) ∷ []

abbrev everything : List Text
everything = lib_path ∷ app_path ∷ old_path ∷ []

abbrev both : List Text
both = lib_path ∷ app_path ∷ []

pub db-IsKeyed : IsKeyed first_byte db
unfolding nix_redox.Base.Strings.text_lt
db-IsKeyed = record {
  ordered = (((refl, (refl, tt)), ((refl, tt), (tt, tt))));
  named = (refl, (refl, (refl, tt)));
}

closure_found :
    compute_closure first_byte db app_path ≡ ok (record { paths = both; total_nar_size = 20 })
unfolding compute_closure nix_redox.Store.Closure.closure_loop nix_redox.Store.Closure.closure_fuel
    nix_redox.Store.Closure.weight BTreeSet.contains nix_redox.Store.Closure.degree require
    PathInfo.get BTreeMap.get text_eq nix_redox.Store.Closure.referenced
    nix_redox.Store.Closure.unseen BTreeSet.keep BTreeSet.insert nix_redox.Base.Strings.text_lt
    PathInfo.is_registered PathInfo.store_path_hash BTreeMap.contains_key
closure_found = refl

both_found : BTreeSet.contains lib_path both ≡ true
unfolding BTreeSet.contains text_eq
both_found = refl

live_found : compute_live_set first_byte db roots ≡ both
unfolding compute_closure nix_redox.Store.Closure.closure_loop nix_redox.Store.Closure.closure_fuel
    nix_redox.Store.Closure.weight BTreeSet.contains nix_redox.Store.Closure.degree require
    PathInfo.get BTreeMap.get text_eq nix_redox.Store.Closure.referenced
    nix_redox.Store.Closure.unseen BTreeSet.keep BTreeSet.insert nix_redox.Base.Strings.text_lt
    PathInfo.is_registered PathInfo.store_path_hash BTreeMap.contains_key compute_live_set
    nix_redox.Store.Roots.live_loop nix_redox.Store.Roots.extend_live list_roots BTreeSet.extend
live_found = refl

listed : all_paths_set db ≡ ok everything
unfolding compute_closure nix_redox.Store.Closure.closure_loop nix_redox.Store.Closure.closure_fuel
    nix_redox.Store.Closure.weight BTreeSet.contains nix_redox.Store.Closure.degree require
    PathInfo.get BTreeMap.get text_eq nix_redox.Store.Closure.referenced
    nix_redox.Store.Closure.unseen BTreeSet.keep BTreeSet.insert nix_redox.Base.Strings.text_lt
    PathInfo.is_registered PathInfo.store_path_hash BTreeMap.contains_key compute_live_set
    nix_redox.Store.Roots.live_loop nix_redox.Store.Roots.extend_live list_roots BTreeSet.extend
    garbage_collect nix_redox.Store.Gc.sweep nix_redox.Store.Gc.delete_path
    nix_redox.Store.Gc.remove_from_disk nix_redox.Store.Gc.exists nix_redox.Store.Gc.count_deleted
    nix_redox.Store.Gc.path_size PathInfo.delete BTreeMap.remove all_paths_set PathInfo.list_paths
    BTreeSet.difference BTreeSet.sort
listed = refl

swept :
    (garbage_collect first_byte machine roots false).0
    ≡ ok (record { paths_deleted = 1; bytes_freed = 5; paths_kept = 2 })
unfolding compute_closure nix_redox.Store.Closure.closure_loop nix_redox.Store.Closure.closure_fuel
    nix_redox.Store.Closure.weight BTreeSet.contains nix_redox.Store.Closure.degree require
    PathInfo.get BTreeMap.get text_eq nix_redox.Store.Closure.referenced
    nix_redox.Store.Closure.unseen BTreeSet.keep BTreeSet.insert nix_redox.Base.Strings.text_lt
    PathInfo.is_registered PathInfo.store_path_hash BTreeMap.contains_key compute_live_set
    nix_redox.Store.Roots.live_loop nix_redox.Store.Roots.extend_live list_roots BTreeSet.extend
    garbage_collect nix_redox.Store.Gc.sweep nix_redox.Store.Gc.delete_path
    nix_redox.Store.Gc.remove_from_disk nix_redox.Store.Gc.exists nix_redox.Store.Gc.count_deleted
    nix_redox.Store.Gc.path_size PathInfo.delete BTreeMap.remove all_paths_set PathInfo.list_paths
    BTreeSet.difference BTreeSet.sort
swept = refl

counted :
    (garbage_collect first_byte machine roots true).0
    ≡ ok (record { paths_deleted = 1; bytes_freed = 5; paths_kept = 2 })
unfolding compute_closure nix_redox.Store.Closure.closure_loop nix_redox.Store.Closure.closure_fuel
    nix_redox.Store.Closure.weight BTreeSet.contains nix_redox.Store.Closure.degree require
    PathInfo.get BTreeMap.get text_eq nix_redox.Store.Closure.referenced
    nix_redox.Store.Closure.unseen BTreeSet.keep BTreeSet.insert nix_redox.Base.Strings.text_lt
    PathInfo.is_registered PathInfo.store_path_hash BTreeMap.contains_key compute_live_set
    nix_redox.Store.Roots.live_loop nix_redox.Store.Roots.extend_live list_roots BTreeSet.extend
    garbage_collect nix_redox.Store.Gc.sweep nix_redox.Store.Gc.delete_path
    nix_redox.Store.Gc.remove_from_disk nix_redox.Store.Gc.exists nix_redox.Store.Gc.count_deleted
    nix_redox.Store.Gc.path_size PathInfo.delete BTreeMap.remove all_paths_set PathInfo.list_paths
    BTreeSet.difference BTreeSet.sort
counted = refl

lib_live : BTreeSet.contains lib_path (compute_live_set first_byte db roots) ≡ true
lib_live = rw (live_found) both_found

old_dead : BTreeSet.contains old_path (compute_live_set first_byte db roots) ≡ false
unfolding BTreeSet.contains text_eq
old_dead = rw (live_found) refl

old_listed : BTreeSet.contains old_path everything ≡ true
unfolding BTreeSet.contains text_eq
old_listed = refl

missing : compute_closure first_byte db (100 ∷ []) ≡ err (not_registered (100 ∷ []))
unfolding compute_closure nix_redox.Store.Closure.closure_loop nix_redox.Store.Closure.closure_fuel
    nix_redox.Store.Closure.weight BTreeSet.contains nix_redox.Store.Closure.degree require
    PathInfo.get BTreeMap.get text_eq nix_redox.Store.Closure.referenced
    nix_redox.Store.Closure.unseen BTreeSet.keep BTreeSet.insert nix_redox.Base.Strings.text_lt
    PathInfo.is_registered PathInfo.store_path_hash BTreeMap.contains_key
missing = refl

lib_stored : BTreeMap.get lib_path db.stored ≡ some (valid (info_of lib_path (app_path ∷ [])))
unfolding BTreeMap.get text_eq
lib_stored = refl

garbage_collect-SamePath_example :
    SamePath first_byte lib_path lib_path machine (garbage_collect first_byte machine roots false).1
garbage_collect-SamePath_example =
    garbage_collect-SamePath first_byte machine roots false lib_path lib_path
      (info_of lib_path (app_path ∷ [])) db-IsKeyed refl lib_stored refl lib_live

old-NoLink : (node : DiskNode) → BTreeMap.get old_path machine.disk ≡ some node → node.link ≡ none
unfolding BTreeMap.get text_eq
old-NoLink node e = ground arith

garbage_collect-Gone_example :
    Gone first_byte old_path old_path (garbage_collect first_byte machine roots false).1
garbage_collect-Gone_example =
    garbage_collect-Gone first_byte machine roots
      (record { paths_deleted = 1; bytes_freed = 5; paths_kept = 2 }) everything old_path old_path
      old-NoLink listed refl old_listed old_dead swept

compute_closure_exact_example :
    (BTreeSet.contains lib_path both ≡ true) ↔ Reach first_byte db app_path lib_path
compute_closure_exact_example =
    compute_closure_exact first_byte db app_path lib_path
      (record { paths = both; total_nar_size = 20 }) closure_found

compute_closure-ends_example : compute_closure first_byte db app_path ≢ err out_of_fuel
compute_closure-ends_example = compute_closure-ends first_byte db app_path

compute_closure-error_example :
    (p : Text) × Reach first_byte db (100 ∷ []) p
    × (require first_byte db p ≡ err (not_registered (100 ∷ [])))
compute_closure-error_example =
    compute_closure-error first_byte db (100 ∷ []) (not_registered (100 ∷ [])) missing

compute_live_set_exact_example :
    (BTreeSet.contains lib_path (compute_live_set first_byte db roots) ≡ true) ↔ (
      (target : Text) × (BTreeSet.contains target (targets (list_roots roots)) ≡ true)
      × Keeps first_byte db target lib_path)
compute_live_set_exact_example = compute_live_set_exact first_byte db roots lib_path

app_found : PathInfo.is_registered first_byte db app_path ≡ true
unfolding compute_closure nix_redox.Store.Closure.closure_loop nix_redox.Store.Closure.closure_fuel
    nix_redox.Store.Closure.weight BTreeSet.contains nix_redox.Store.Closure.degree require
    PathInfo.get BTreeMap.get text_eq nix_redox.Store.Closure.referenced
    nix_redox.Store.Closure.unseen BTreeSet.keep BTreeSet.insert nix_redox.Base.Strings.text_lt
    PathInfo.is_registered PathInfo.store_path_hash BTreeMap.contains_key
app_found = refl

app_info : require first_byte db app_path ≡ ok (info_of app_path (lib_path ∷ []))
unfolding compute_closure nix_redox.Store.Closure.closure_loop nix_redox.Store.Closure.closure_fuel
    nix_redox.Store.Closure.weight BTreeSet.contains nix_redox.Store.Closure.degree require
    PathInfo.get BTreeMap.get text_eq nix_redox.Store.Closure.referenced
    nix_redox.Store.Closure.unseen BTreeSet.keep BTreeSet.insert nix_redox.Base.Strings.text_lt
    PathInfo.is_registered PathInfo.store_path_hash BTreeMap.contains_key
app_info = refl

app_refers : BTreeSet.contains lib_path (lib_path ∷ []) ≡ true
unfolding BTreeSet.contains text_eq
app_refers = refl

pub app-Keeps : Keeps first_byte db app_path lib_path
app-Keeps = record {
  closure = record { paths = both; total_nar_size = 20 };
  registered = app_found;
  computed = closure_found;
  reached = via (info_of app_path (lib_path ∷ [])) lib_path here app_info app_refers;
}
