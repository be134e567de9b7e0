-- ===== src/Store/Closure/Steps.antt =====
-- One round of `closure_loop`, on each of its branches.
use nix_redox.Base.{ℕ, suc, ◌+◌, ◌%◌, ◌^◌, Text, true, false, Option, List, ◌∷◌, ◌++◌, ok, err, ◌≡◌}
use nix_redox.Base.Strings.{text_key}
use nix_redox.Base.BTreeSet
use nix_redox.PathInfo.{PathInfo, PathInfoDb}
use nix_redox.Store.Closure.{StoreError, require, unseen, closure_loop}

module _ (digest : Text → Option Text) (db : PathInfoDb) (fuel : ℕ) (visited : List Text)
    (path : Text) (queue : List Text) (total : ℕ) where
  pub closure_loop_old :
      BTreeSet.contains path visited ≡ true
      → closure_loop digest db (suc fuel) visited (path ∷ queue) total
        ≡ closure_loop digest db fuel visited queue total
  unfolding closure_loop
  closure_loop_old e = rw (e, closure_loop)

  pub closure_loop_fails :
      {e : StoreError}
      → BTreeSet.contains path visited ≡ false
      → require digest db path ≡ err e
      → closure_loop digest db (suc fuel) visited (path ∷ queue) total ≡ err e
  unfolding closure_loop
  closure_loop_fails n r = rw (n, r, closure_loop)

  pub closure_loop_visits :
      {info : PathInfo}
      → BTreeSet.contains path visited ≡ false
      → require digest db path ≡ ok info
      → closure_loop digest db (suc fuel) visited (path ∷ queue) total
        ≡ closure_loop digest db fuel
            (BTreeSet.insert path visited)
            (queue ++ unseen (BTreeSet.insert path visited) info.references)
            ((total + info.nar_size) % 2 ^ 64)
  unfolding closure_loop
  closure_loop_visits n r = rw (n, r, closure_loop)
