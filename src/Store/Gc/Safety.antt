-- ===== src/Store/Gc/Safety.antt =====
-- The collector never touches what is live.
use nix_redox.Base.{
  Text, Bool, true, false, Option, some, List, [], ◌∷◌, ◌≡◌, ◌≢◌, refl, sym, ap, ◌∙◌, arith,
}
use nix_redox.Base.{ok, Result-cases, inl, inr}
use nix_redox.Base.Strings.{text_key, text_eq, text_eq_iff}
use nix_redox.Base.BTreeMap
use nix_redox.Base.BTreeSet
use nix_redox.PathInfo.{PathInfo, PathInfoDb, valid, all_paths_set}
use nix_redox.PathInfo.Keyed.{IsKeyed, all_paths_set-IsStored}
use nix_redox.Store.Roots.{GcRoots, compute_live_set}
use nix_redox.Store.Gc.{
  Machine, GcStats, count_deleted, path_size, delete_path, sweep, garbage_collect,
}
use nix_redox.Store.Gc.Deletion.{delete_path-disk, delete_path-file, sweep_fails, sweep_goes}

module _ (digest : Text → Option Text) where
  -- What a path shows to a client is the same on two machines.
  pub record SamePath (hash path : Text) (m m' : Machine) : Type 0 where
    pub file : BTreeMap.get hash m'.db.stored ≡ BTreeMap.get hash m.db.stored
    pub node : BTreeMap.get path m'.disk ≡ BTreeMap.get path m.disk

  SamePath-trans :
      (hash path : Text) (m m' m'' : Machine)
      → SamePath hash path m m'
      → SamePath hash path m' m''
      → SamePath hash path m m''
  SamePath-trans hash path m m' m'' s t = record { file = t.file ∙ s.file; node = t.node ∙ s.node }

  sweep-SamePath :
      (hash path : Text) (dry_run : Bool) (m : Machine) (stats : GcStats) (dead : List Text)
      → ((q : Text)
          → BTreeSet.contains q dead ≡ true
          → (text_eq q path ≡ false) × (digest q ≢ some hash))
      → SamePath hash path m (sweep digest dry_run m stats dead).1
  unfolding sweep
  sweep-SamePath hash path true m stats [] apart = record { file = refl; node = refl }
  sweep-SamePath hash path false m stats [] apart = record { file = refl; node = refl }
  sweep-SamePath hash path true m stats (q ∷ dead) apart =
      sweep-SamePath hash path true m (count_deleted stats (path_size m q)) dead
        (λ x c. apart x (BTreeSet.contains-tail q x dead c))
  sweep-SamePath hash path false m stats (q ∷ dead) apart =
      let (n, d) = apart q (BTreeSet.contains-head q dead) in
      let one : SamePath hash path m (delete_path digest m q).1 = record {
        file = delete_path-file digest m q hash d;
        node = delete_path-disk digest m q path n;
      } in
      elim (Result-cases (delete_path digest m q).0) [
        | inr (e, r) ↦ rw (sweep_fails digest m stats q dead r) one
        | inl (u, r) ↦ rw (sweep_goes digest m stats q dead r) (
            SamePath-trans hash path m (delete_path digest m q).1 _ one (
              sweep-SamePath hash path false (delete_path digest m q).1
                (count_deleted stats (path_size m q)) dead
                (λ x c. apart x (BTreeSet.contains-tail q x dead c))))
      ]

  some-valid-injective : {i j : PathInfo} → some (valid i) ≡ some (valid j) → i ≡ j
  some-valid-injective h = ground arith

  -- A dead path is neither the live path nor one with its hash.
  dead_apart :
      (db : PathInfoDb) (all live : List Text) (path hash : Text) (info : PathInfo)
      → IsKeyed digest db
      → all_paths_set db ≡ ok all
      → digest path ≡ some hash
      → BTreeMap.get hash db.stored ≡ some (valid info)
      → info.store_path ≡ path
      → BTreeSet.contains path live ≡ true
      → (q : Text) → BTreeSet.contains q (BTreeSet.difference all live) ≡ true
      → (text_eq q path ≡ false) × (digest q ≢ some hash)
  dead_apart db all live path hash info k a d g own l q c =
      let q_dead : BTreeSet.contains q live ≡ false =
        ground (arith, BTreeSet.contains-difference q all live) in
      let q_all : BTreeSet.contains q all ≡ true =
        ground (arith, BTreeSet.contains-difference q all live) in
      let apart : q ≢ path =
        λ e. absurd (ground (arith, ap (λ (x : Text). BTreeSet.contains x live) e)) in
      (
        ground (arith, text_eq_iff q path, apart),
        λ same.
            let (h', i', g', own', d') = all_paths_set-IsStored digest db all q k a q_all in
            let hashes : h' ≡ hash = ground arith in
            let infos : i' ≡ info =
              some-valid-injective
                (sym g' ∙ ap (λ (h : Text). BTreeMap.get h db.stored) hashes ∙ g) in
            apart (sym own' ∙ ap (λ (i : PathInfo). i.store_path) infos ∙ own),
      )

  -- A live path that is registered under its own name keeps its metadata file and its files in the
  -- store, in a well-formed database, whatever the mode of the collection and whether it succeeds.
  pub garbage_collect-SamePath :
      (m : Machine) (roots : GcRoots) (dry_run : Bool) (path hash : Text) (info : PathInfo)
      → IsKeyed digest m.db
      → digest path ≡ some hash
      → BTreeMap.get hash m.db.stored ≡ some (valid info)
      → info.store_path ≡ path
      → BTreeSet.contains path (compute_live_set digest m.db roots) ≡ true
      → SamePath hash path m (garbage_collect digest m roots dry_run).1
  garbage_collect-SamePath m roots dry_run path hash info k d g own l =
      elim (Result-cases (all_paths_set m.db)) [
        | inr (e, a) ↦
            unfold garbage_collect in rw (a, garbage_collect) (record { file = refl; node = refl })
        | inl (all, a) ↦
            unfold garbage_collect in
            rw (a, garbage_collect)
              (sweep-SamePath hash path dry_run m _
                (BTreeSet.difference all (compute_live_set digest m.db roots))
                (dead_apart m.db all (compute_live_set digest m.db roots) path hash info k a d g own
                  l))
      ]
