-- ===== src/Store/Closure/Size.antt =====
-- The size of a closure: the sum of the NAR sizes of its paths, as a 64-bit number.
use nix_redox.Base.{ℕ, zero, suc, ◌+◌, ◌%◌, ◌^◌, Text, false, Option}
use nix_redox.Base.{
  List, [], ◌∷◌, ◌++◌, ok, err, ◌≡◌, refl, sym, ◌∙◌, arith, Bool-cases, Result-cases, inl, inr,
}
use nix_redox.Base.Strings.{text_key}
use nix_redox.Base.BTreeSet
use nix_redox.PathInfo.{PathInfo, PathInfoDb}
use nix_redox.Store.Closure.Steps.{closure_loop_old, closure_loop_fails, closure_loop_visits}
use nix_redox.Store.Closure.{Closure, require, unseen, closure_loop, compute_closure}

module _ (digest : Text → Option Text) (db : PathInfoDb) where
  pub nar_size_of : Text → ℕ
  nar_size_of path = elim (require digest db path) [ err e ↦ 0 | ok info ↦ info.nar_size ]

  pub sum_sizes : List Text → ℕ
  sum_sizes [] = 0
  sum_sizes (p ∷ s) = nar_size_of p + sum_sizes s

  sum_sizes-insert :
      (p : Text) (s : List Text)
      → BTreeSet.contains p s ≡ false
      → sum_sizes (BTreeSet.insert p s) ≡ nar_size_of p + sum_sizes s
  unfolding sum_sizes BTreeSet.insert BTreeSet.contains
  sum_sizes-insert p [] h = refl
  sum_sizes-insert p (x ∷ s) h = ground (arith, sum_sizes-insert p s)

  nar_size_of-ok :
      (p : Text) (info : PathInfo) → require digest db p ≡ ok info → nar_size_of p ≡ info.nar_size
  unfolding nar_size_of
  nar_size_of-ok p info e = rw (e, nar_size_of)

  closure_loop-size :
      (fuel : ℕ) (visited queue : List Text) (total : ℕ) (c : Closure)
      → total ≡ sum_sizes visited % 2 ^ 64
      → closure_loop digest db fuel visited queue total ≡ ok c
      → c.total_nar_size ≡ sum_sizes c.paths % 2 ^ 64
  unfolding closure_loop
  closure_loop-size fuel visited [] total c h e = ground arith
  closure_loop-size zero visited (path ∷ queue) total c h e = absurd (ground arith)
  closure_loop-size (suc fuel) visited (path ∷ queue) total c h e =
      elim (Bool-cases (BTreeSet.contains path visited)) [
        | inl old ↦
            closure_loop-size fuel visited queue total c h
              (sym (closure_loop_old digest db fuel visited path queue total old) ∙ e)
        | inr new ↦ elim (Result-cases (require digest db path)) [
          | inr (x, r) ↦
              absurd
                (ground (arith, closure_loop_fails digest db fuel visited path queue total new r))
          | inl (info, r) ↦
              closure_loop-size fuel (BTreeSet.insert path visited)
                (queue ++ unseen (BTreeSet.insert path visited) info.references)
                ((total + info.nar_size) % 2 ^ 64) c
                (omega (arith, sum_sizes-insert path visited new, nar_size_of-ok path info r))
                (sym (closure_loop_visits digest db fuel visited path queue total new r) ∙ e)
        ]
      ]

  -- The reported size of a closure is the sum of the NAR sizes of its paths, each counted once,
  -- modulo 2 ^ 64.
  pub compute_closure-size :
      (root : Text) (c : Closure)
      → compute_closure digest db root ≡ ok c
      → c.total_nar_size ≡ sum_sizes c.paths % 2 ^ 64
  unfolding compute_closure
  compute_closure-size root c e =
      closure_loop-size _ [] (root ∷ []) 0 c (unfold sum_sizes in refl) e
