-- ===== src/Store/Closure/Termination.antt =====
-- The search ends: `closure_fuel` rounds are enough on every database.
use nix_redox.Base.{ℕ, zero, suc, ◌+◌, ◌%◌, ◌^◌, ◌≤◌, Text, Bool, true, false, not, Option, some}
use nix_redox.Base.{
  List, [], ◌∷◌, ◌++◌, length, length-append, Result, ok, err, ◌≡◌, ◌≢◌, ap, ◌∙◌, arith, Bool-cases,
  Option-cases, Result-cases, inl, inr,
}
use nix_redox.Base.Strings.{text_key, text_eq_iff}
use nix_redox.Base.BTreeMap
use nix_redox.Base.BTreeMap.{BTreeMap}
use nix_redox.Base.BTreeSet
use nix_redox.PathInfo
use nix_redox.PathInfo.{PathInfo, InfoFile, valid, garbled, unreadable, PathInfoDb}
use nix_redox.Store.Closure.Steps.{closure_loop_old, closure_loop_fails, closure_loop_visits}
use nix_redox.Store.Closure.{
  StoreError, out_of_fuel, Closure, referenced, require, unseen, closure_loop, degree, weight,
  closure_fuel, compute_closure,
}

-- Every element of a list is in another.
abbrev pub Within : List Text → List Text → Type 0
Within xs s = (p : Text) → BTreeSet.contains p xs ≡ true → BTreeSet.contains p s ≡ true

module _ (digest : Text → Option Text) (db : PathInfoDb) where
  referenced-get :
      (m : BTreeMap Text InfoFile) (hash : Text) (info : PathInfo)
      → BTreeMap.get hash m ≡ some (valid info)
      → Within info.references (referenced m)
  unfolding referenced BTreeMap.get
  referenced-get [] hash info e p h = cc
  referenced-get ((j, valid i) ∷ m) hash info e p h = ground (
    arith,
    BTreeSet.contains-append p i.references (referenced m),
    λ (g : BTreeMap.get hash m ≡ some (valid info)). referenced-get m hash info g p h,
  )
  referenced-get ((j, garbled) ∷ m) hash info e p h =
      ground
        (arith, λ (g : BTreeMap.get hash m ≡ some (valid info)). referenced-get m hash info g p h)
  referenced-get ((j, unreadable) ∷ m) hash info e p h =
      ground
        (arith, λ (g : BTreeMap.get hash m ≡ some (valid info)). referenced-get m hash info g p h)

  pub require-stored :
      (path : Text) (info : PathInfo)
      → require digest db path ≡ ok info
      → (hash : Text) × (digest path ≡ some hash)
        × (BTreeMap.get hash db.stored ≡ some (valid info))
  unfolding require PathInfo.get
  require-stored path info e = elim (Option-cases (digest path)) [
    | inl h ↦ absurd (ground arith)
    | inr (hash, h) ↦ (hash, h, ground arith)
  ]

  -- What a registered path references is referenced by the database.
  require-referenced :
      (path : Text) (info : PathInfo)
      → require digest db path ≡ ok info
      → Within info.references (referenced db.stored)
  require-referenced path info e =
      let (hash, _, g) = require-stored path info e in referenced-get db.stored hash info g

  weight-insert_le :
      (xs visited : List Text) (p : Text)
      → weight digest db xs (BTreeSet.insert p visited) ≤ weight digest db xs visited
  unfolding weight
  weight-insert_le [] visited p = omega arith
  weight-insert_le (x ∷ xs) visited p =
      ground (arith, BTreeSet.contains-insert p x visited, weight-insert_le xs visited p)

  -- A first visit takes the degree of the path off the weight.
  weight-insert :
      (xs visited : List Text) (p : Text)
      → BTreeSet.contains p xs ≡ true
      → BTreeSet.contains p visited ≡ false
      → weight digest db xs (BTreeSet.insert p visited) + degree digest db p
        ≤ weight digest db xs visited
  unfolding weight BTreeSet.contains
  weight-insert [] visited p h v = cc
  weight-insert (x ∷ xs) visited p h v = ground (
    arith,
    text_eq_iff x p,
    text_eq_iff p x,
    BTreeSet.contains-insert p x visited,
    weight-insert_le xs visited p,
    weight-insert xs visited p,
  )

  length-keep : (p : Text → Bool) (xs : List Text) → length (BTreeSet.keep p xs) ≤ length xs
  unfolding BTreeSet.keep
  length-keep p [] = omega arith
  length-keep p (x ∷ xs) = ground (arith, length-keep p xs)

  pub require-ne-out_of_fuel : (path : Text) → require digest db path ≢ err out_of_fuel
  unfolding require
  require-ne-out_of_fuel path e = elim (Result-cases (PathInfo.get digest db path)) [
    | inl (found, g) ↦ ground arith
    | inr (_, g) ↦ ground arith
  ]

  err-injective :
      (e e' : StoreError) → ◌≡◌ {A = Result StoreError Closure} (err e) (err e') → e ≡ e'
  err-injective e e' h = ground arith

  Within-tail : (p : Text) (xs s : List Text) → Within (p ∷ xs) s → Within xs s
  Within-tail p xs s h q c = h q (unfold BTreeSet.contains in ground arith)

  Within-cons : (p : Text) (xs s : List Text) → Within xs s → Within xs (p ∷ s)
  Within-cons p xs s h q c = unfold BTreeSet.contains in ground (arith, h q)

  Within-head : (p : Text) (xs s : List Text) → Within (p ∷ xs) s → BTreeSet.contains p s ≡ true
  Within-head p xs s h = h p (unfold BTreeSet.contains in ground (arith, text_eq_iff p p))

  Within-unseen :
      (queue visited refs s : List Text)
      → Within queue s
      → Within refs s
      → Within (queue ++ unseen visited refs) s
  unfolding unseen
  Within-unseen queue visited refs s h k q c = ground (
    arith,
    BTreeSet.contains-append q queue (unseen visited refs),
    BTreeSet.contains-keep (λ r. not (BTreeSet.contains r visited)) q refs,
    h q,
    k q,
  )

  length-queue-unseen :
      (queue visited refs : List Text)
      → length (queue ++ unseen visited refs) ≤ length queue + length refs
  unfolding unseen
  length-queue-unseen queue visited refs = omega (
    arith,
    length-append queue (unseen visited refs),
    length-keep (λ r. not (BTreeSet.contains r visited)) refs,
  )

  degree-ok :
      (path : Text) (info : PathInfo)
      → require digest db path ≡ ok info
      → degree digest db path ≡ length info.references
  unfolding degree
  degree-ok path info e = rw (e, degree)

  closure_loop-ends :
      (root : Text) (fuel : ℕ) (visited queue : List Text) (total : ℕ)
      → Within queue (root ∷ referenced db.stored)
      → length queue + weight digest db (root ∷ referenced db.stored) visited ≤ fuel
      → closure_loop digest db fuel visited queue total ≢ err out_of_fuel
  unfolding closure_loop
  closure_loop-ends root fuel visited [] total within h = λ e. cc
  closure_loop-ends root zero visited (path ∷ queue) total within h = absurd (omega arith)
  closure_loop-ends root (suc fuel) visited (path ∷ queue) total within h =
      elim (Bool-cases (BTreeSet.contains path visited)) [
        | inl old ↦ rw (closure_loop_old digest db fuel visited path queue total old) (
            closure_loop-ends root fuel visited queue total (Within-tail path queue _ within)
              (omega arith))
        | inr new ↦ elim (Result-cases (require digest db path)) [
          | inr (e, r) ↦
              rw (closure_loop_fails digest db fuel visited path queue total new r)
                (λ c. require-ne-out_of_fuel path (r ∙ ap err (err-injective e out_of_fuel c)))
          | inl (info, r) ↦ rw (closure_loop_visits digest db fuel visited path queue total new r) (
              closure_loop-ends root fuel (BTreeSet.insert path visited)
                (queue ++ unseen (BTreeSet.insert path visited) info.references)
                ((total + info.nar_size) % 2 ^ 64)
                (Within-unseen queue (BTreeSet.insert path visited) info.references _
                  (Within-tail path queue _ within)
                  (Within-cons root _ _ (require-referenced path info r)))
                (omega (
                  arith,
                  length-queue-unseen queue (BTreeSet.insert path visited) info.references,
                  degree-ok path info r,
                  weight-insert (root ∷ referenced db.stored) visited path
                      (Within-head path queue _ within) new,
                )))
        ]
      ]

  start : (root : Text) → Within (root ∷ []) (root ∷ referenced db.stored)
  start root p c = unfold BTreeSet.contains in ground arith

  -- The search ends with a closure or an error of the database, whatever references the metadata
  -- holds, cycles and self references included.
  pub compute_closure-ends : (root : Text) → compute_closure digest db root ≢ err out_of_fuel
  unfolding compute_closure closure_fuel
  compute_closure-ends root =
      closure_loop-ends root (closure_fuel digest db root) [] (root ∷ []) 0 (start root)
        (omega arith)
