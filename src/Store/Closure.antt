-- ===== src/Store/Closure.antt =====
-- `compute_closure` of snix-redox/src/store.rs: breadth-first search over references.
-- The loop takes fuel; `closure_fuel` is enough, and `out_of_fuel` is no error of the program.
pub mod Steps
pub mod Termination
pub mod Exact
pub mod Size
use nix_redox.Base.{ℕ, zero, suc, ◌+◌, ◌%◌, ◌^◌, Text, Bool, true, false, not, Option, none, some}
use nix_redox.Base.{List, [], ◌∷◌, ◌++◌, length, Result, ok, err, ◌>>=◌, ok_or, if◌then◌else◌}
use nix_redox.Base.Strings.{text_key}
use nix_redox.Base.BTreeMap.{BTreeMap}
use nix_redox.Base.BTreeSet
use nix_redox.PathInfo
use nix_redox.PathInfo.{PathInfo, PathInfoError, InfoFile, valid, garbled, unreadable, PathInfoDb}

pub data StoreError : Type 0 where
  path_info : PathInfoError → StoreError
  not_registered : Text → StoreError
  out_of_fuel : StoreError

pub record Closure : Type 0 where
  pub paths : List Text
  pub total_nar_size : ℕ

pub lift_db {ℓ} : {A : Type ℓ} → Result PathInfoError A → Result StoreError A
lift_db (ok a) = ok a
lift_db (err e) = err (path_info e)

-- The paths that some metadata file references.
unfoldable pub referenced : BTreeMap Text InfoFile → List Text
referenced [] = []
referenced ((hash, valid info) ∷ rest) = info.references ++ referenced rest
referenced ((hash, _) ∷ rest) = referenced rest

-- The references that are pushed to the back of the queue.
unfoldable pub unseen : List Text → List Text → List Text
unseen visited refs = BTreeSet.keep (λ r. not (BTreeSet.contains r visited)) refs

module _ (digest : Text → Option Text) (db : PathInfoDb) where
  -- `db.get(&path)?.ok_or_else(…)?`
  unfoldable pub require : Text → Result StoreError PathInfo
  unfolding lift_db
  require path =
      lift_db (PathInfo.get digest db path) >>= λ found. ok_or found (not_registered path)

  unfoldable pub closure_loop : ℕ → List Text → List Text → ℕ → Result StoreError Closure
  closure_loop fuel visited [] total = ok (record { paths = visited; total_nar_size = total })
  closure_loop zero visited (path ∷ queue) total = err out_of_fuel
  closure_loop (suc fuel) visited (path ∷ queue) total = elim (BTreeSet.contains path visited) [
    | true ↦ closure_loop fuel visited queue total
    | false ↦ elim (require path) [
      | err e ↦ err e
      | ok info ↦
          closure_loop fuel (BTreeSet.insert path visited)
            (queue ++ unseen (BTreeSet.insert path visited) info.references)
            ((total + info.nar_size) % 2 ^ 64)
    ]
  ]

  -- How many references a path pushes at most.
  unfoldable pub degree : Text → ℕ
  degree path = elim (require path) [ err e ↦ 0 | ok info ↦ length info.references ]

  -- The references that paths outside `visited` can still push.
  unfoldable pub weight : List Text → List Text → ℕ
  weight [] visited = 0
  weight (path ∷ rest) visited =
      (if BTreeSet.contains path visited then 0 else degree path) + weight rest visited

  unfoldable pub closure_fuel : Text → ℕ
  closure_fuel root = 1 + weight (root ∷ referenced db.stored) []

  unfoldable pub compute_closure : Text → Result StoreError Closure
  compute_closure root = closure_loop (closure_fuel root) [] (root ∷ []) 0
