-- ===== src/System/Roots.antt =====
-- The roots of generations, by snix-redox/src/system.rs: `gen-{id}-{name}` for each package, boot
-- component and output of a generation.
pub mod Names
pub mod Packages
pub mod Removal
use nix_redox.Base.{
  ℕ, ◌+◌, ◌%◌, ◌^◌, Text, bytes, Bool, true, false, Option, none, some, List, [], ◌∷◌, ◌++◌, Result,
  ok, err, if◌then◌else◌,
}
use nix_redox.Base.BTreeMap.{BTreeMap}
use nix_redox.Base.Slices.{is_empty, strip_prefix, starts_with, split_once}
use nix_redox.Base.Decimal.{to_decimal}
use nix_redox.Store.Roots.{GcRoots, GcRoot, RootError, add_root, remove_root, list_roots}
use nix_redox.System.{Package, BootComponents, Manifest, ManifestFile, Generation, scan_generations}

-- `format!("gen-{}-", gen_id)`
unfoldable pub root_prefix : ℕ → Text
unfolding to_decimal
root_prefix gen_id = bytes "gen-" ++ (to_decimal gen_id ++ (b'-' ∷ []))

unfoldable pub root_name : ℕ → Text → Text
unfolding root_prefix
root_name gen_id name = root_prefix gen_id ++ name

-- A failure is a warning: the roots stay as they were, and the root does not count.
abbrev pub counted : Result RootError GcRoots → ℕ × GcRoots → ℕ × GcRoots
counted (err e) (added, roots) = (added, roots)
counted (ok roots') (added, roots) = ((added + 1) % 2 ^ 32, roots')

-- "/nix/store/abc-kernel/boot/kernel" is in "/nix/store/abc-kernel".
unfoldable pub extract_store_dir : Text → Text
unfolding strip_prefix split_once
extract_store_dir path = elim (strip_prefix (bytes "/nix/store/") path) [
  | none ↦ path
  | some rest ↦ elim (split_once b'/' rest) [
    | none ↦ path
    | some (dir, file) ↦ bytes "/nix/store/" ++ dir
  ]
]

-- `if let Ok(roots)`, and the result of a removal is not looked at.
abbrev pub without : Result RootError GcRoots → GcRoots → GcRoots
without (err e) roots = roots
without (ok roots') roots = roots'

-- A root that cannot be removed stays, and is counted all the same.
abbrev pub attempted : Bool → Text → GcRoots → GcRoots
attempted unlinked name roots = if unlinked then without (remove_root name roots) roots else roots

unfoldable pub remove_prefixed : (Text → Bool) → Text → List GcRoot → ℕ → GcRoots → ℕ × GcRoots
remove_prefixed unlinks prefix [] removed roots = (removed, roots)
remove_prefixed unlinks prefix (root ∷ rest) removed roots =
    let next =
      remove_prefixed unlinks prefix rest ((removed + 1) % 2 ^ 32)
        (attempted (unlinks root.name) root.name roots) in
    let skip = remove_prefixed unlinks prefix rest removed roots in
    if starts_with prefix root.name then next else skip

unfoldable pub remove_generation_gc_roots : (Text → Bool) → GcRoots → ℕ → ℕ × GcRoots
unfolding remove_prefixed
remove_generation_gc_roots unlinks roots gen_id =
    remove_prefixed unlinks (root_prefix gen_id) (list_roots roots) 0 roots

-- The roots of the former naming.
unfoldable pub old_roots : List GcRoot → List GcRoot
old_roots [] = []
old_roots (root ∷ rest) =
    let others = old_roots rest in
    if starts_with (bytes "system-") root.name then root ∷ others else others

unfoldable pub remove_all : List GcRoot → GcRoots → GcRoots
remove_all [] roots = roots
remove_all (root ∷ rest) roots = remove_all rest (without (remove_root root.name roots) roots)

module _ (digest : Text → Option Text) where
  unfoldable pub package_roots : ℕ → List Package → ℕ × GcRoots → ℕ × GcRoots
  package_roots gen_id [] state = state
  package_roots gen_id (pkg ∷ pkgs) state = package_roots gen_id pkgs (
      if is_empty pkg.store_path
      then state
      else counted (add_root digest (root_name gen_id pkg.name) pkg.store_path state.1) state)

  unfoldable pub add_generation_gc_roots : GcRoots → ℕ → List Package → ℕ × GcRoots
  unfolding package_roots
  add_generation_gc_roots roots gen_id packages = package_roots gen_id packages (0, roots)

  -- A root for a path where there is one.
  abbrev pub optional_root : ℕ → Text → Option Text → ℕ × GcRoots → ℕ × GcRoots
  optional_root gen_id name none state = state
  optional_root gen_id name (some path) state =
      counted (add_root digest (root_name gen_id name) path state.1) state

  abbrev pub store_dir : Option Text → Option Text
  store_dir none = none
  store_dir (some path) = some (extract_store_dir path)

  unfoldable pub add_boot_gc_roots : GcRoots → ℕ → Option BootComponents → ℕ × GcRoots
  add_boot_gc_roots roots gen_id none = (0, roots)
  add_boot_gc_roots roots gen_id (some boot) =
      optional_root gen_id (bytes "boot-bootloader") (store_dir boot.bootloader) (
        optional_root gen_id (bytes "boot-initfs") (store_dir boot.initfs)
          (optional_root gen_id (bytes "boot-kernel") (store_dir boot.kernel) (0, roots)))

  unfoldable pub add_output_gc_roots : GcRoots → ℕ → Manifest → ℕ × GcRoots
  add_output_gc_roots roots gen_id m =
      optional_root gen_id (bytes "etc-source") m.etc_source
        (optional_root gen_id (bytes "toplevel") m.toplevel (0, roots))

  -- The packages of all generations.
  unfoldable pub root_generations : List Generation → GcRoots → GcRoots
  unfolding add_generation_gc_roots
  root_generations [] roots = roots
  root_generations (g ∷ gs) roots =
      root_generations gs (add_generation_gc_roots roots g.id g.manifest.packages).1

  unfoldable pub migrate_gc_roots_if_needed : GcRoots → BTreeMap Text ManifestFile → GcRoots
  unfolding root_generations old_roots remove_all
  migrate_gc_roots_if_needed roots dir =
      let olds = old_roots (list_roots roots) in
      if is_empty olds
      then roots
      else remove_all olds (root_generations (scan_generations dir) roots)

  -- The roots, and the numbers of roots for packages, boot components and outputs.
  unfoldable pub update_system_gc_roots :
      GcRoots → BTreeMap Text ManifestFile → Manifest → GcRoots × (ℕ × (ℕ × ℕ))
  unfolding migrate_gc_roots_if_needed add_generation_gc_roots add_boot_gc_roots add_output_gc_roots
  update_system_gc_roots roots dir m =
      let (added, packages) =
        add_generation_gc_roots (migrate_gc_roots_if_needed roots dir) m.generation.id m.packages in
      let (boot_added, booted) = add_boot_gc_roots packages m.generation.id m.boot in
      let (system_added, all) = add_output_gc_roots booted m.generation.id m in
      (all, (added, (boot_added, system_added)))
