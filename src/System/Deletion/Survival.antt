-- ===== src/System/Deletion/Survival.antt =====
-- What a protected generation has a root for survives `system_gc`.
use nix_redox.Base.{
  ℕ, Text, Bool, true, Option, some, Result, ok, err, ◌≡◌, refl, ◌∙◌, Result-cases, inl, inr,
}
use nix_redox.Base.Strings.{text_key}
use nix_redox.Base.BTreeMap
use nix_redox.Base.Slices.{starts_with}
use nix_redox.PathInfo.{PathInfo, valid}
use nix_redox.PathInfo.Keyed.{IsKeyed}
use nix_redox.Store.Roots.{symlink}
use nix_redox.Store.Roots.Live.{Keeps, contains-targets, compute_live_set_exact}
use nix_redox.Store.Gc.{Machine, GcStats, GcError, garbage_collect}
use nix_redox.Store.Gc.Safety.{SamePath, garbage_collect-SamePath}
use nix_redox.System.{Files}
use nix_redox.System.Roots.{root_prefix}
use nix_redox.System.Deletion.{delete_generations_with, gc_selector, swept, system_gc}
use nix_redox.System.Deletion.Protection.{IsProtected, delete_generations_with-Kept}

module _ (digest : Text → Option Text) where
  -- `p` is registered under its own name, and in the closure of a path that the root links to.
  pub record IsRooted (s : Files) (m : Machine) (name p hash : Text) : Type 0 where
    pub target : Text
    pub info : PathInfo
    pub linked : BTreeMap.get name s.roots ≡ some (symlink target)
    pub keeps : Keeps digest m.db target p
    pub hashed : digest p ≡ some hash
    pub registered : BTreeMap.get hash m.db.stored ≡ some (valid info)
    pub own : info.store_path ≡ p

  swept-machine : (r : Result GcError GcStats × Machine) (t : Files) → (swept digest r t).1.1 ≡ r.1
  swept-machine (ok stats, m) t = refl
  swept-machine (err e, m) t = refl

  sweep_keeps :
      (s t : Files) (m : Machine) (dry_run : Bool) (name p hash : Text)
      → IsKeyed digest m.db
      → IsRooted s m name p hash
      → BTreeMap.get name t.roots ≡ BTreeMap.get name s.roots
      → SamePath digest hash p m (swept digest (garbage_collect digest m t.roots dry_run) t).1.1
  sweep_keeps s t m dry_run name p hash keyed r same =
      rw (swept-machine (garbage_collect digest m t.roots dry_run) t) (
        garbage_collect-SamePath digest m t.roots dry_run p hash r.info keyed r.hashed r.registered
          r.own
          ((compute_live_set_exact digest m.db t.roots p).1
            (r.target, contains-targets name r.target t.roots (same ∙ r.linked), r.keeps)))

  -- A collection of the system, dry or not, whatever it is told to keep, and whether it succeeds or not:
  -- a path that is in the closure of what a root of the current generation or of the boot default links
  -- to keeps its metadata and its files, in a well-formed database in which it is registered.
  pub system_gc-SamePath :
      (now : ℕ) (keep : Option ℕ) (dry_run : Bool) (s : Files) (m : Machine) (id : ℕ)
      (name p hash : Text)
      → IsKeyed digest m.db
      → IsProtected id s
      → starts_with (root_prefix id) name ≡ true
      → IsRooted s m name p hash
      → SamePath digest hash p m (system_gc digest now keep dry_run s m).1.1
  unfolding system_gc
  system_gc-SamePath now keep dry_run s m id name p hash keyed h prefixed r =
      let kept = delete_generations_with-Kept now s (gc_selector keep) dry_run id h in
      let same = kept.roots name prefixed in
      elim (Result-cases (delete_generations_with now s (gc_selector keep) dry_run).0) [
        | inr (x, e) ↦ rw (e, system_gc) (record { file = refl; node = refl })
        | inl (stats, e) ↦
            rw (e, system_gc)
              (sweep_keeps s (delete_generations_with now s (gc_selector keep) dry_run).1 m dry_run
                name p hash keyed r same)
      ]
