-- ===== src/System/Examples.antt =====
-- A system with three generations, of which the second is current and the first boots.
use nix_redox.Base.{
  leb, ◌&&◌, not, ℕ, ◌+◌, ◌-◌, ◌<◌, ◌≤◌, ◌^◌, Text, bytes, Bool, true, false, Option, none, some,
  List, [], ◌∷◌, length, drop, All, Result, ok, err, if◌then◌else◌, ◌≡◌, refl, ap, inl, inr, arith,
}
use nix_redox.Base.Strings.{text_key, text_eq, nat_key}
use nix_redox.Base.BTreeMap
use nix_redox.Base.BTreeSet
use nix_redox.Base.Decimal.{to_decimal}
use nix_redox.Store.Roots.{symlink}
use nix_redox.Store.Gc.Safety.{SamePath}
use nix_redox.Store.Examples.{
  first_byte, lib_path, app_path, machine, info_of, app-Keeps, db-IsKeyed,
}
use nix_redox.System.{
  GenerationInfo, Package, Manifest, ManifestFile, parsed, Files, scan_generations, max, max_id,
  next_generation_id, load_manifest_from, read_boot_default,
}
use nix_redox.System.Numbering.{next_generation_id-above}
use nix_redox.System.Selector.{keep_last, parse_generation_selector}
use nix_redox.System.Selector.Printing.{asked, parse_generation_selector-gc_selector}
use nix_redox.System.Roots.{
  root_name, root_prefix, update_system_gc_roots, migrate_gc_roots_if_needed,
}
use nix_redox.System.Roots.Packages.{last_path, link_or, IsPackageName, update_system_gc_roots-get}
use nix_redox.System.Deletion.{gen_ids, to_delete, delete_generations_with, gc_selector, system_gc}
use nix_redox.System.Deletion.Survival.{IsRooted, system_gc-SamePath}
use nix_redox.System.Deletion.Protection.{IsProtected, Kept, delete_generations_with-Kept}
use nix_redox.System.Deletion.Completion.{Gone, delete_generations_with-Gone}
use nix_redox.System.Deletion.Unscanned.{IsCanonical}
use nix_redox.System.Deletion.DryRun.{announced, delete_generations_with_foretold}
use nix_redox.System.Deletion.Newest.{Differ, count_above, to_delete_newest}

abbrev rg : Package
rg = record { name = bytes "rg"; version = bytes "1"; store_path = app_path }

abbrev manifest : ℕ → Manifest
manifest n = record {
  generation = record { id = n; build_hash = []; description = []; timestamp = [] };
  boot = none;
  packages = rg ∷ [];
  users = [];
  services = record { declared = []; init_scripts = []; startup_script = [] };
  activation_scripts = [];
  files = [];
  toplevel = none;
  etc_source = none;
}

abbrev files : Files
files = record {
  generations =
      (bytes "1", parsed (manifest 1))
      ∷ (bytes "2", parsed (manifest 2))
      ∷ (bytes "3", parsed (manifest 3))
      ∷ [];
  current = parsed (manifest 2);
  boot_default = some (bytes "1");
  roots =
      (bytes "gen-1-rg", symlink app_path)
      ∷ (bytes "gen-2-rg", symlink app_path)
      ∷ (bytes "gen-3-rg", symlink app_path)
      ∷ [];
  unlinks = λ name. true;
}

second-IsProtected : IsProtected 2 files
unfolding load_manifest_from IsProtected
second-IsProtected = inl (manifest 2, (refl, refl))

delete_generations_with-Kept_example :
    Kept 2 files (delete_generations_with 9 files (bytes "2 3") false).1
delete_generations_with-Kept_example =
    delete_generations_with-Kept 9 files (bytes "2 3") false 2 second-IsProtected

delete_generations_with_foretold_example :
    ((delete_generations_with 9 files (bytes "old") true).1 ≡ files)
    × (announced (delete_generations_with 9 files (bytes "old") true).0
        ≡ announced (delete_generations_with 9 files (bytes "old") false).0)
delete_generations_with_foretold_example = delete_generations_with_foretold 9 files (bytes "old")

third_deleted :
    (delete_generations_with 9 files (bytes "2 3") false).0
    ≡ ok (record {
      generations_deleted = 1;
      roots_removed = 1;
      deleted_ids = 3 ∷ [];
      protected_ids = 2 ∷ [];
    })
unfolding delete_generations_with load_manifest_from read_boot_default
    nix_redox.Base.Decimal.parse_unsigned parse_generation_selector text_eq
    nix_redox.Base.Slices.strip_prefix nix_redox.Base.Words.strip_last
    nix_redox.Base.Words.split_whitespace BTreeSet.contains BTreeSet.insert
    nix_redox.System.Roots.remove_generation_gc_roots nix_redox.Store.Roots.list_roots
    nix_redox.Base.Slices.starts_with root_prefix
third_deleted = refl

roots-IsOrdered : BTreeMap.IsOrdered files.roots
unfolding nix_redox.Base.Strings.text_lt
roots-IsOrdered = ((refl, (refl, tt)), ((refl, tt), (tt, tt)))

decimals_same : (n id : ℕ) → n ≡ id → to_decimal n ≡ to_decimal id
decimals_same n id e = ap to_decimal e

directories-IsCanonical : IsCanonical files.generations
unfolding IsCanonical nix_redox.Base.Decimal.parse_unsigned to_decimal
    nix_redox.Base.Decimal.decimal_loop
directories-IsCanonical = (
  λ id e. decimals_same 1 id (ground arith),
  (λ id e. decimals_same 2 id (ground arith), (λ id e. decimals_same 3 id (ground arith), tt)),
)

delete_generations_with-Gone_example :
    Gone 3 (delete_generations_with 9 files (bytes "2 3") false).1
unfolding BTreeSet.contains
delete_generations_with-Gone_example =
    delete_generations_with-Gone 9 files (bytes "2 3") 3
      (record {
        generations_deleted = 1;
        roots_removed = 1;
        deleted_ids = 3 ∷ [];
        protected_ids = 2 ∷ [];
      })
      roots-IsOrdered directories-IsCanonical (λ j p. refl) third_deleted refl

highest : max (max_id (scan_generations files.generations)) 2 ≡ 3
unfolding max_id scan_generations nix_redox.Base.Decimal.parse_unsigned
highest = refl

few : max (max_id (scan_generations files.generations)) 2 + 1 < 2 ^ 32
few = omega (arith, highest)

next_generation_id-above_example :
    All
      (λ g. g.id < next_generation_id files.generations (manifest 2))
      (scan_generations files.generations)
    × (2 < next_generation_id files.generations (manifest 2))
next_generation_id-above_example = next_generation_id-above files.generations (manifest 2) few

parse_generation_selector-gc_selector_example :
    parse_generation_selector (gc_selector (some 3)) ≡ asked (some 3)
parse_generation_selector-gc_selector_example =
    parse_generation_selector-gc_selector (some 3) (omega arith)

update_system_gc_roots-get_example :
    BTreeMap.get
      (root_name 2 (bytes "rg"))
      (update_system_gc_roots first_byte files.roots files.generations (manifest 2)).0
    ≡ link_or first_byte (last_path first_byte (bytes "rg") (rg ∷ [])) (
        BTreeMap.get
          (root_name 2 (bytes "rg"))
          (migrate_gc_roots_if_needed first_byte files.roots files.generations))
unfolding IsPackageName text_eq
update_system_gc_roots-get_example =
    update_system_gc_roots-get first_byte files.roots files.generations (manifest 2) (bytes "rg")
      (refl, (refl, (refl, (refl, refl))))

newest_chosen :
    to_delete 9 (2 ∷ []) (scan_generations files.generations) (keep_last 1) ≡ ok (1 ∷ [])
unfolding to_delete scan_generations nix_redox.Base.Decimal.parse_unsigned BTreeSet.contains
    nix_redox.System.Deletion.all_but_last
newest_chosen = refl

scanned-Differ : Differ (gen_ids (scan_generations files.generations))
unfolding scan_generations nix_redox.Base.Decimal.parse_unsigned BTreeSet.contains gen_ids Differ
scanned-Differ = (refl, (refl, (refl, tt)))

to_delete_newest_example : BTreeSet.contains {K = ℕ} 1 (1 ∷ []) ≡ (
    BTreeSet.contains 1 (gen_ids (scan_generations files.generations))
    && leb 1 (count_above 1 (gen_ids (scan_generations files.generations)))
    && not (BTreeSet.contains {K = ℕ} 1 (2 ∷ [])))
to_delete_newest_example =
    to_delete_newest 9 1 1 (2 ∷ []) files.generations (1 ∷ []) scanned-Differ newest_chosen

app-IsRooted : IsRooted first_byte files machine (bytes "gen-2-rg") lib_path lib_path
unfolding BTreeMap.get text_eq
app-IsRooted = record {
  target = app_path;
  info = info_of lib_path (app_path ∷ []);
  linked = refl;
  keeps = app-Keeps;
  hashed = refl;
  registered = refl;
  own = refl;
}

system_gc-SamePath_example :
    SamePath first_byte lib_path lib_path machine
      (system_gc first_byte 9 (some 1) false files machine).1.1
unfolding nix_redox.Base.Slices.starts_with nix_redox.Base.Slices.strip_prefix root_prefix
    to_decimal
system_gc-SamePath_example =
    system_gc-SamePath first_byte 9 (some 1) false files machine 2 (bytes "gen-2-rg") lib_path
      lib_path db-IsKeyed second-IsProtected refl app-IsRooted
