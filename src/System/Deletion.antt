-- ===== src/System/Deletion.antt =====
-- `delete_generations` and `system_gc` of snix-redox/src/system.rs. The directories of generations can be
-- removed, and the roots be read.
pub mod Newest
pub mod Plans
pub mod DryRun
pub mod Unscanned
pub mod Completion
pub mod Protection
pub mod Survival
use nix_redox.Base.{
  ℕ, zero, suc, ◌+◌, ◌-◌, ◌*◌, ◌%◌, ◌^◌, ltb, Text, bytes, Bool, true, false, not, Option, none,
  some, List, [], ◌∷◌, ◌++◌, length, take, map, Result, ok, err, ◌>>=◌, if◌then◌else◌,
}
use nix_redox.Base.Strings.{text_key, nat_key}
use nix_redox.Base.BTreeMap
use nix_redox.Base.BTreeSet
use nix_redox.Base.Slices.{is_empty}
use nix_redox.Base.Decimal.{to_decimal}
use nix_redox.Store.Roots.{GcRoots}
use nix_redox.Store.Gc.{Machine, GcStats, GcError, garbage_collect}
use nix_redox.System.{
  ManifestFile, Files, Generation, SystemError, panic, load_manifest_from, read_boot_default,
  scan_generations,
}
use nix_redox.System.Selector.{
  GenerationSelector, ids, keep_last, older_than_days, old, parse_generation_selector,
}
use nix_redox.System.Timestamps.{parse_timestamp_to_epoch}
use nix_redox.System.Roots.{remove_generation_gc_roots}

pub record DeleteGenerationsStats : Type 0 where
  pub generations_deleted : ℕ
  pub roots_removed : ℕ
  pub deleted_ids : List ℕ
  pub protected_ids : List ℕ

unfoldable pub gen_ids : List Generation → List ℕ
gen_ids [] = []
gen_ids (g ∷ gs) = g.id ∷ gen_ids gs

-- The current generation and the boot default.
abbrev pub protected_set : ℕ → Option ℕ → List ℕ
protected_set current none = BTreeSet.insert current []
protected_set current (some boot) = BTreeSet.insert boot (BTreeSet.insert current [])

unfoldable pub unprotected : List ℕ → List ℕ → List ℕ
unprotected protected [] = []
unprotected protected (id ∷ rest) =
    let others = unprotected protected rest in
    if BTreeSet.contains id protected then others else id ∷ others

-- The ids that are asked for and protected.
unfoldable pub refused : List ℕ → List ℕ → List ℕ
refused protected [] = []
refused protected (id ∷ rest) =
    let others = refused protected rest in
    if BTreeSet.contains id protected then id ∷ others else others

-- `cutoff - gen_epoch` is compared for the generations that are not protected only.
unfoldable pub older_than : ℕ → List ℕ → List Generation → Option (List ℕ)
older_than cutoff protected [] = some []
older_than cutoff protected (g ∷ gs) =
    let rest = older_than cutoff protected gs in
    if BTreeSet.contains g.id protected
    then rest
    else elim (parse_timestamp_to_epoch g.manifest.generation.timestamp) [
      | none ↦ none
      | some epoch ↦ elim rest [
        | none ↦ none
        | some others ↦ some (if ltb epoch cutoff then g.id ∷ others else others)
      ]
    ]

-- All but the last `n`.
unfoldable pub all_but_last : ℕ → List ℕ → List ℕ
all_but_last n sorted_ids =
    if ltb n (length sorted_ids) then take (length sorted_ids - n) sorted_ids else []

abbrev or_panic : Option (List ℕ) → Result SystemError (List ℕ)
or_panic none = err panic
or_panic (some found) = ok found

-- What is to be deleted. `sort` of the ids of scanned generations has nothing to do.
unfoldable pub to_delete :
    ℕ → List ℕ → List Generation → GenerationSelector → Result SystemError (List ℕ)
unfolding unprotected gen_ids older_than all_but_last
to_delete now protected gens (ids asked) = ok (unprotected protected asked)
to_delete now protected gens (keep_last n) =
    ok (unprotected protected (all_but_last n (gen_ids gens)))
to_delete now protected gens (older_than_days days) =
    or_panic (older_than (now - days * 86400) protected gens)
to_delete now protected gens old = ok (unprotected protected (gen_ids gens))

abbrev pub refused_by : List ℕ → GenerationSelector → List ℕ
refused_by protected (ids asked) = refused protected asked
refused_by protected other = []

abbrev pub deleted : DeleteGenerationsStats → ℕ → ℕ → DeleteGenerationsStats
deleted stats id roots_removed = record stats {
  generations_deleted = (stats.generations_deleted + 1) % 2 ^ 32;
  roots_removed = (stats.roots_removed + roots_removed) % 2 ^ 32;
  deleted_ids = stats.deleted_ids ++ (id ∷ []);
}

-- The roots go first, then the directory.
unfoldable pub delete_generation : ℕ → Files → ℕ × Files
delete_generation id files =
    let (removed, roots) = remove_generation_gc_roots files.unlinks files.roots id in
    (
      removed,
      record files {
        roots = roots;
        generations = BTreeMap.remove (to_decimal id) files.generations;
      },
    )

unfoldable pub delete_loop :
    Bool → List ℕ → DeleteGenerationsStats → Files → DeleteGenerationsStats × Files
unfolding delete_generation
delete_loop dry_run [] stats files = (stats, files)
delete_loop true (id ∷ rest) stats files = delete_loop true rest (deleted stats id 0) files
delete_loop false (id ∷ rest) stats files =
    let (removed, files') = delete_generation id files in
    delete_loop false rest (deleted stats id removed) files'

-- What a deletion has to do: the ids to delete, and the statistics before the first.
abbrev pub initial : List ℕ → DeleteGenerationsStats
initial protected_ids = record {
  generations_deleted = 0;
  roots_removed = 0;
  deleted_ids = [];
  protected_ids = protected_ids;
}

abbrev planned :
    ℕ
    → List ℕ
    → List Generation
    → GenerationSelector
    → Result SystemError (List ℕ × DeleteGenerationsStats)
planned now protected gens selector = to_delete now protected gens selector >>= λ chosen.
    ok (chosen, initial (refused_by protected selector))

unfoldable pub deletion_plan :
    ℕ → Text → Files → Result SystemError (List ℕ × DeleteGenerationsStats)
unfolding to_delete refused
deletion_plan now selector files = load_manifest_from files.current >>= λ current.
    read_boot_default files.boot_default >>= λ boot_default.
    parse_generation_selector selector >>= λ parsed.
    planned now (protected_set current.generation.id boot_default)
      (scan_generations files.generations) parsed

unfoldable pub delete_generations_with :
    ℕ → Files → Text → Bool → Result SystemError DeleteGenerationsStats × Files
unfolding deletion_plan delete_loop
delete_generations_with now files selector dry_run = elim (deletion_plan now selector files) [
  | err e ↦ (err e, files)
  | ok (chosen, stats) ↦
      let (stats', files') = delete_loop dry_run chosen stats files in (ok stats', files')
]

pub data SystemGcError : Type 0 where
  pruning : SystemError → SystemGcError
  sweeping : GcError → SystemGcError

unfoldable pub gc_selector : Option ℕ → Text
gc_selector none = bytes "old"
gc_selector (some n) = b'+' ∷ to_decimal n

module _ (digest : Text → Option Text) where
  abbrev pub swept :
      Result GcError GcStats × Machine → Files → Result SystemGcError (Unit {0}) × (Files × Machine)
  swept (ok stats, m) files = (ok tt, (files, m))
  swept (err e, m) files = (err (sweeping e), (files, m))

  -- The generations go, and then what only they kept.
  unfoldable pub system_gc :
      ℕ → Option ℕ → Bool → Files → Machine → Result SystemGcError (Unit {0}) × (Files × Machine)
  unfolding delete_generations_with
  system_gc now keep dry_run files m =
      let (r, files') = delete_generations_with now files (gc_selector keep) dry_run in
      elim r [
        | err e ↦ (err (pruning e), (files', m))
        | ok stats ↦ swept (garbage_collect digest m files'.roots dry_run) files'
      ]
