-- ===== src/System/Deletion/Completion.antt =====
-- What a deletion says is deleted is gone.
use nix_redox.Base.{
  ℕ, ◌==◌, ==_iff, Text, true, false, ◌||◌, List, [], ◌∷◌, none, some, Result, ok, err, ◌≡◌, ◌≢◌,
  refl, sym, ap, ◌∙◌, subst, arith, Bool-cases, Result-cases, inl, inr,
}
use nix_redox.Base.Strings.{text_key, text_eq_iff, nat_key}
use nix_redox.Base.BTreeMap
use nix_redox.Base.BTreeSet
use nix_redox.Base.Slices.{starts_with}
use nix_redox.Base.Decimal.{to_decimal}
use nix_redox.Store.Roots.{symlink}
use nix_redox.System.{Files, SystemError, scan_generations}
use nix_redox.System.Roots.{root_prefix}
use nix_redox.System.Roots.Removal.{
  IsOrdered-remove_generation_gc_roots, remove_generation_gc_roots-gone,
  remove_generation_gc_roots-links,
}
use nix_redox.System.Deletion.{
  gen_ids, DeleteGenerationsStats, delete_generation, delete_loop, deleted, deletion_plan,
  delete_generations_with,
}
use nix_redox.System.Deletion.Unscanned.{
  IsCanonical, IsCanonical-remove, unscanned-remove, unscanned-kept,
}
use nix_redox.System.Deletion.Plans.{deletion_plan-Plan}

-- A generation has no directory, is not found by a scan, and has no roots.
pub record Gone (id : ℕ) (s : Files) : Type 0 where
  pub no_directory : BTreeMap.get (to_decimal id) s.generations ≡ none
  pub unscanned : BTreeSet.contains id (gen_ids (scan_generations s.generations)) ≡ false
  pub no_roots :
      (j target : Text)
      → starts_with (root_prefix id) j ≡ true
      → BTreeMap.get j s.roots ≢ some (symlink target)

delete_generation-Gone :
    (id : ℕ) (s : Files)
    → BTreeMap.IsOrdered s.roots
    → IsCanonical s.generations
    → ((j : Text) → starts_with (root_prefix id) j ≡ true → s.unlinks j ≡ true)
    → Gone id (delete_generation id s).1
unfolding delete_generation
delete_generation-Gone id s o c u = record {
  no_directory =
      BTreeMap.get-remove (to_decimal id) (to_decimal id) s.generations
      ∙ rw ((text_eq_iff (to_decimal id) (to_decimal id)).1 refl) refl;
  unscanned = unscanned-remove id s.generations c;
  no_roots =
      λ j target p. remove_generation_gc_roots-gone s.unlinks s.roots id j target (u j p) o p;
}

Gone-delete_generation : (id x : ℕ) (s : Files) → Gone id s → Gone id (delete_generation x s).1
unfolding delete_generation
Gone-delete_generation id x s g = record {
  no_directory =
      BTreeMap.get-remove (to_decimal x) (to_decimal id) s.generations
      ∙ rw (g.no_directory) (ground arith);
  unscanned = unscanned-kept id (to_decimal x) s.generations g.unscanned;
  no_roots = λ j target p e.
      g.no_roots j target p (remove_generation_gc_roots-links s.unlinks s.roots x j target e);
}

Gone-delete_loop :
    (chosen : List ℕ) (id : ℕ) (stats : DeleteGenerationsStats) (s : Files)
    → Gone id s
    → Gone id (delete_loop false chosen stats s).1
unfolding delete_loop
Gone-delete_loop [] id stats s g = g
Gone-delete_loop (x ∷ rest) id stats s g =
    Gone-delete_loop rest id (deleted stats x (delete_generation x s).0) (delete_generation x s).1
      (Gone-delete_generation id x s g)

delete_loop-Gone :
    (chosen : List ℕ) (id : ℕ) (stats : DeleteGenerationsStats) (s : Files)
    → BTreeMap.IsOrdered s.roots
    → IsCanonical s.generations
    → ((j : Text) → starts_with (root_prefix id) j ≡ true → s.unlinks j ≡ true)
    → BTreeSet.contains id chosen ≡ true
    → Gone id (delete_loop false chosen stats s).1
unfolding delete_loop BTreeSet.contains delete_generation
delete_loop-Gone [] id stats s o c u h = absurd (ground arith)
delete_loop-Gone (x ∷ rest) id stats s o c u h = elim (Bool-cases (x == id)) [
  | inl y ↦
      Gone-delete_loop rest id (deleted stats x (delete_generation x s).0) (delete_generation x s).1
        (subst (λ i. Gone i (delete_generation x s).1) ((==_iff x id).0 y)
          (delete_generation-Gone x s o c (
            subst (λ i. (j : Text) → starts_with (root_prefix i) j ≡ true → s.unlinks j ≡ true)
              (sym ((==_iff x id).0 y)) u)))
  | inr n ↦
      delete_loop-Gone rest id (deleted stats x (delete_generation x s).0) (delete_generation x s).1
        (IsOrdered-remove_generation_gc_roots s.unlinks s.roots x o)
        (IsCanonical-remove (to_decimal x) s.generations c) u (ground arith)
]

deleted_ids-delete_loop :
    (chosen : List ℕ) (id : ℕ) (stats : DeleteGenerationsStats) (s : Files)
    → BTreeSet.contains id (delete_loop false chosen stats s).0.deleted_ids
      ≡ (BTreeSet.contains id stats.deleted_ids || BTreeSet.contains id chosen)
unfolding delete_loop BTreeSet.contains
deleted_ids-delete_loop [] id stats s = ground arith
deleted_ids-delete_loop (x ∷ rest) id stats s =
    deleted_ids-delete_loop rest id (deleted stats x (delete_generation x s).0)
      (delete_generation x s).1
    ∙ rw (BTreeSet.contains-append id stats.deleted_ids (x ∷ [])) (ground arith)

ids_of : Result SystemError DeleteGenerationsStats → List ℕ
ids_of (ok stats) = stats.deleted_ids
ids_of (err e) = []

-- The ids that are answered are those of the plan.
chosen_from :
    (now : ℕ) (s : Files) (selector : Text) (id : ℕ) (chosen : List ℕ)
    (first : DeleteGenerationsStats)
    → deletion_plan now selector s ≡ ok (chosen, first)
    → BTreeSet.contains id (ids_of (delete_generations_with now s selector false).0)
      ≡ BTreeSet.contains id chosen
unfolding delete_generations_with ids_of BTreeSet.contains
chosen_from now s selector id chosen first p =
    let plan = deletion_plan-Plan now selector s chosen first p in
    rw (p, delete_generations_with)
      (deleted_ids-delete_loop chosen id first s
        ∙ ap
            (λ (x : DeleteGenerationsStats).
              BTreeSet.contains id x.deleted_ids || BTreeSet.contains id chosen)
            (sym plan.starts))

-- After a real deletion that succeeds, a generation that it answers as deleted has no directory, is not
-- found by a scan and has no root left, where the roots are a well-formed directory, those of the
-- generation can be removed, and the directories that are read as generations are named by the decimals of
-- their ids.
pub delete_generations_with-Gone :
    (now : ℕ) (s : Files) (selector : Text) (id : ℕ) (stats : DeleteGenerationsStats)
    → BTreeMap.IsOrdered s.roots
    → IsCanonical s.generations
    → ((j : Text) → starts_with (root_prefix id) j ≡ true → s.unlinks j ≡ true)
    → (delete_generations_with now s selector false).0 ≡ ok stats
    → BTreeSet.contains id stats.deleted_ids ≡ true
    → Gone id (delete_generations_with now s selector false).1
unfolding delete_generations_with ids_of
delete_generations_with-Gone now s selector id stats o c u e h =
    elim (Result-cases (deletion_plan now selector s)) [
      | inr (x, p) ↦ absurd (ground arith)
      | inl ((chosen, first), p) ↦
          rw (p, delete_generations_with)
            (delete_loop-Gone chosen id first s o c u (
              sym (chosen_from now s selector id chosen first p)
              ∙ ap (λ r. BTreeSet.contains id (ids_of r)) e
              ∙ h))
    ]
