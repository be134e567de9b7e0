-- ===== src/Store/Gc/Complete.antt =====
-- What a collection removes, counts and reports.
use nix_redox.Base.{
  ℕ, ◌<◌, ◌+◌, ◌%◌, ◌^◌, Text, true, false, Option, none, some, List, [], ◌∷◌, length, ◌≡◌, refl,
  subst, sym, ap, ◌∙◌, arith,
}
use nix_redox.Base.{Result, ok, Result-cases, inl, inr}
use nix_redox.Base.Strings.{text_key}
use nix_redox.Base.BTreeMap
use nix_redox.Base.BTreeSet
use nix_redox.PathInfo.{all_paths_set}
use nix_redox.Store.Roots.{GcRoots, compute_live_set}
use nix_redox.Store.Gc.{
  DiskNode, Machine, GcStats, GcError, count_deleted, path_size, delete_path, sweep,
  garbage_collect,
}
use nix_redox.Store.Gc.Deletion.{
  Shrinks, delete_path-Shrinks, delete_path-done, sweep_fails, sweep_goes,
}

module _ (digest : Text → Option Text) where
  sweep-Shrinks :
      (m : Machine) (stats : GcStats) (dead : List Text)
      → Shrinks m (sweep digest false m stats dead).1
  unfolding sweep
  sweep-Shrinks m stats [] = record { files = λ j n. n; nodes = λ q n. n; bound = λ q node b. b }
  sweep-Shrinks m stats (q ∷ dead) =
      let one : Shrinks m (delete_path digest m q).1 = delete_path-Shrinks digest m q in
      elim (Result-cases (delete_path digest m q).0) [
        | inr (e, r) ↦ rw (sweep_fails digest m stats q dead r) one
        | inl (u, r) ↦
            let rest : Shrinks (delete_path digest m q).1
                (sweep digest false (delete_path digest m q).1 (count_deleted stats (path_size m q))
                  dead).1 =
              sweep-Shrinks (delete_path digest m q).1 (count_deleted stats (path_size m q)) dead in
            rw (sweep_goes digest m stats q dead r) (record {
              files = λ j n. rest.files j (one.files j n);
              nodes = λ p n. rest.nodes p (one.nodes p n);
              bound = λ p node b. one.bound p node (rest.bound p node b);
            })
      ]

  -- A path is on no disk and in no database.
  pub record Gone (hash path : Text) (m : Machine) : Type 0 where
    pub file : BTreeMap.get hash m.db.stored ≡ none
    pub node : BTreeMap.get path m.disk ≡ none

  sweep-Gone :
      (hash path : Text) (m : Machine) (stats stats' : GcStats) (dead : List Text)
      → ((node : DiskNode) → BTreeMap.get path m.disk ≡ some node → node.link ≡ none)
      → digest path ≡ some hash
      → BTreeSet.contains path dead ≡ true
      → (sweep digest false m stats dead).0 ≡ ok stats'
      → Gone hash path (sweep digest false m stats dead).1
  sweep-Gone hash path m stats stats' [] k d c e = absurd (unfold BTreeSet.contains in ground arith)
  sweep-Gone hash path m stats stats' (q ∷ dead) k d c e =
      let m' : Machine = (delete_path digest m q).1 in
      let counted : GcStats = count_deleted stats (path_size m q) in
      elim (Result-cases (delete_path digest m q).0) [
        | inr (x, r) ↦ absurd (ground (arith, sweep_fails digest m stats q dead r))
        | inl (u, r) ↦ elim (BTreeSet.cons-cases q path dead c) [
          | inr later ↦ rw (sweep_goes digest m stats q dead r) (
              sweep-Gone hash path m' counted stats' dead
                (λ node b. k node ((delete_path-Shrinks digest m q).bound path node b)) d later
                (ap (λ (p : Result GcError GcStats × Machine). p.0)
                    (sym (sweep_goes digest m stats q dead r))
                  ∙ e))
          | inl now ↦
              let (node, file) =
                delete_path-done digest m q hash
                  (subst
                    (λ x. (node : DiskNode) → BTreeMap.get x m.disk ≡ some node → node.link ≡ none)
                    (sym now) k)
                  (rw now d) r in
              let rest : Shrinks m' (sweep digest false m' counted dead).1 =
                sweep-Shrinks m' counted dead in
              rw (sweep_goes digest m stats q dead r) (record {
                file = rest.files hash file;
                node = rest.nodes path (subst (λ x. BTreeMap.get x m'.disk ≡ none) now node);
              })
        ]
      ]

  -- After a collection, not a dry run, that succeeds, a listed path that was not live, and is no symbolic
  -- link on the disk, is neither registered nor on disk.
  pub garbage_collect-Gone :
      (m : Machine) (roots : GcRoots) (stats : GcStats) (all : List Text) (path hash : Text)
      → ((node : DiskNode) → BTreeMap.get path m.disk ≡ some node → node.link ≡ none)
      → all_paths_set m.db ≡ ok all
      → digest path ≡ some hash
      → BTreeSet.contains path all ≡ true
      → BTreeSet.contains path (compute_live_set digest m.db roots) ≡ false
      → (garbage_collect digest m roots false).0 ≡ ok stats
      → Gone hash path (garbage_collect digest m roots false).1
  garbage_collect-Gone m roots stats all path hash k a d c l =
      unfold garbage_collect in
      rw (a, garbage_collect)
        (λ e.
          sweep-Gone hash path m _ stats
            (BTreeSet.difference all (compute_live_set digest m.db roots)) k d
            (ground
              (arith, BTreeSet.contains-difference path all (compute_live_set digest m.db roots)))
            e)

  sweep_dry :
      (m : Machine) (stats : GcStats) (dead : List Text)
      → (stats' : GcStats) × (sweep digest true m stats dead ≡ (ok stats', m))
  unfolding sweep
  sweep_dry m stats [] = (stats, refl)
  sweep_dry m stats (q ∷ dead) = sweep_dry m (count_deleted stats (path_size m q)) dead

  -- Where the database can be listed, a dry run succeeds and changes nothing.
  pub garbage_collect_dry :
      (m : Machine) (roots : GcRoots) (all : List Text)
      → all_paths_set m.db ≡ ok all
      → (stats : GcStats) × (garbage_collect digest m roots true ≡ (ok stats, m))
  garbage_collect_dry m roots all a =
      unfold garbage_collect in
      rw (a, garbage_collect)
        (sweep_dry m _ (BTreeSet.difference all (compute_live_set digest m.db roots)))

  -- The bytes on disk of the paths of a list.
  pub disk_usage : Machine → List Text → ℕ
  disk_usage m [] = 0
  disk_usage m (q ∷ dead) = path_size m q + disk_usage m dead

  sweep_dry-stats :
      (m : Machine) (stats stats' : GcStats) (dead : List Text)
      → (sweep digest true m stats dead).0 ≡ ok stats'
      → stats.paths_deleted < 2 ^ 32
      → stats.bytes_freed < 2 ^ 64
      → (stats'.paths_deleted ≡ (stats.paths_deleted + length dead) % 2 ^ 32)
        × (stats'.bytes_freed ≡ (stats.bytes_freed + disk_usage m dead) % 2 ^ 64)
        × (stats'.paths_kept ≡ stats.paths_kept)
  unfolding sweep disk_usage count_deleted
  sweep_dry-stats m stats stats' [] e a b = ground arith
  sweep_dry-stats m stats stats' (q ∷ dead) e a b = omega (
    arith,
    sweep_dry-stats m (count_deleted stats (path_size m q)) stats' dead e (omega arith)
        (omega arith),
  )

  abbrev initial : Machine → GcRoots → GcStats
  initial m roots = record {
    paths_deleted = 0;
    bytes_freed = 0;
    paths_kept = length (compute_live_set digest m.db roots) % 2 ^ 32;
  }

  -- A dry run counts the dead paths and their bytes on disk, modulo the widths of the counters.
  pub garbage_collect_dry-stats :
      (m : Machine) (roots : GcRoots) (all : List Text) (stats : GcStats)
      → all_paths_set m.db ≡ ok all
      → (garbage_collect digest m roots true).0 ≡ ok stats
      → (stats.paths_deleted
          ≡ length (BTreeSet.difference all (compute_live_set digest m.db roots)) % 2 ^ 32)
        × (stats.bytes_freed
            ≡ disk_usage m (BTreeSet.difference all (compute_live_set digest m.db roots)) % 2 ^ 64)
        × (stats.paths_kept ≡ length (compute_live_set digest m.db roots) % 2 ^ 32)
  garbage_collect_dry-stats m roots all stats a =
      unfold garbage_collect in
      rw (a, garbage_collect)
        (λ e.
          let (deleted, freed, kept) =
            sweep_dry-stats m (initial m roots) stats
              (BTreeSet.difference all (compute_live_set digest m.db roots)) e (omega arith)
              (omega arith) in
          (omega (arith, deleted), omega (arith, freed), kept))
