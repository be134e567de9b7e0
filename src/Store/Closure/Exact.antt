-- ===== src/Store/Closure/Exact.antt =====
-- The closure is exactly what can be reached from the root through references.
use nix_redox.Base.{ℕ, zero, suc, ◌+◌, ◌%◌, ◌^◌, Text, true, not, ◌||◌, Option}
use nix_redox.Base.{
  List, [], ◌∷◌, ◌++◌, Result, ok, err, ◌≡◌, ◌≢◌, ◌↔◌, subst, sym, ap, ◌∙◌, arith, Bool-cases,
  Result-cases, inl, inr,
}
use nix_redox.Base.Strings.{text_key, text_eq_iff}
use nix_redox.Base.BTreeSet
use nix_redox.PathInfo.{PathInfo, PathInfoDb}
use nix_redox.Store.Closure.Steps.{closure_loop_old, closure_loop_fails, closure_loop_visits}
use nix_redox.Store.Closure.{
  StoreError, out_of_fuel, Closure, require, unseen, closure_loop, compute_closure,
}
use nix_redox.Store.Closure.Termination.{compute_closure-ends}

module _ (digest : Text → Option Text) (db : PathInfoDb) where
  -- What a chain of references leads to from `root`; every path before the last is registered.
  pub data Reach (root : Text) : Text → Type 0 where
    here : Reach root root
    via :
        {p : Text} (info : PathInfo) (r : Text)
        → Reach root p
        → require digest db p ≡ ok info
        → BTreeSet.contains r info.references ≡ true
        → Reach root r

  -- Every member of a list can be reached.
  abbrev AllReach : Text → List Text → Type 0
  AllReach root s = (p : Text) → BTreeSet.contains p s ≡ true → Reach root p

  -- Every visited path is registered, and its references are visited or queued.
  abbrev Closed : List Text → List Text → Type 0
  Closed visited queue =
      (p : Text)
      → BTreeSet.contains p visited ≡ true
      → (info : PathInfo) × (require digest db p ≡ ok info)
        × ((r : Text)
            → BTreeSet.contains r info.references ≡ true
            → (BTreeSet.contains r visited || BTreeSet.contains r queue) ≡ true)

  AllReach-tail : (root p : Text) (s : List Text) → AllReach root (p ∷ s) → AllReach root s
  AllReach-tail root p s h q c = h q (BTreeSet.contains-tail p q s c)

  AllReach-insert :
      (root p : Text) (s : List Text)
      → AllReach root s
      → Reach root p
      → AllReach root (BTreeSet.insert p s)
  AllReach-insert root p s h r q c = elim (BTreeSet.insert-cases p q s c) [
    | inl e ↦ subst (Reach root) e r
    | inr old ↦ h q old
  ]

  AllReach-queue :
      (root p : Text) (info : PathInfo) (visited queue : List Text)
      → AllReach root queue
      → Reach root p
      → require digest db p ≡ ok info
      → AllReach root (queue ++ unseen visited info.references)
  unfolding unseen
  AllReach-queue root p info visited queue h r e q c =
      elim (BTreeSet.append-cases q queue (unseen visited info.references) c) [
        | inl old ↦ h q old
        | inr new ↦ via info q r e (BTreeSet.keep→contains _ q info.references new)
      ]

  done-paths :
      (visited : List Text) (total : ℕ) (c : Closure)
      → ◌≡◌ {A = Result StoreError Closure}
          (ok (record { paths = visited; total_nar_size = total }))
          (ok c)
      → visited ≡ c.paths
  done-paths visited total c e = ground arith

  -- Only reachable paths are visited.
  closure_loop_sound :
      (root : Text) (fuel : ℕ) (visited queue : List Text) (total : ℕ) (c : Closure)
      → AllReach root visited
      → AllReach root queue
      → closure_loop digest db fuel visited queue total ≡ ok c
      → AllReach root c.paths
  unfolding closure_loop
  closure_loop_sound root fuel visited [] total c v w e =
      subst (AllReach root) (done-paths visited total c e) v
  closure_loop_sound root zero visited (path ∷ queue) total c v w e = absurd (ground arith)
  closure_loop_sound root (suc fuel) visited (path ∷ queue) total c v w e =
      elim (Bool-cases (BTreeSet.contains path visited)) [
        | inl old ↦
            closure_loop_sound root fuel visited queue total c v (AllReach-tail root path queue w)
              (sym (closure_loop_old digest db fuel visited path queue total old) ∙ e)
        | inr new ↦ elim (Result-cases (require digest db path)) [
          | inr (x, r) ↦
              absurd
                (ground (arith, closure_loop_fails digest db fuel visited path queue total new r))
          | inl (info, r) ↦
              let reached : Reach root path = w path (BTreeSet.contains-head path queue) in
              closure_loop_sound root fuel (BTreeSet.insert path visited)
                (queue ++ unseen (BTreeSet.insert path visited) info.references)
                ((total + info.nar_size) % 2 ^ 64) c (AllReach-insert root path visited v reached)
                (AllReach-queue root path info (BTreeSet.insert path visited) queue
                  (AllReach-tail root path queue w) reached r)
                (sym (closure_loop_visits digest db fuel visited path queue total new r) ∙ e)
        ]
      ]

  Closed-old :
      (visited queue : List Text) (path : Text)
      → BTreeSet.contains path visited ≡ true
      → Closed visited (path ∷ queue)
      → Closed visited queue
  Closed-old visited queue path old h p m =
      let (info, r, f) = h p m in
      (info, r, λ q c. unfold BTreeSet.contains in ground (arith, f q c, text_eq_iff path q))

  Closed-visit :
      (visited queue : List Text) (path : Text) (info : PathInfo)
      → require digest db path ≡ ok info
      → Closed visited (path ∷ queue)
      → Closed
          (BTreeSet.insert path visited)
          (queue ++ unseen (BTreeSet.insert path visited) info.references)
  unfolding unseen
  Closed-visit visited queue path info r h p m = elim (BTreeSet.insert-cases path p visited m) [
    | inl e ↦ (
      info,
      subst (λ x. require digest db x ≡ ok info) e r,
      λ q c. ground (
        arith,
        BTreeSet.contains-append q queue (unseen (BTreeSet.insert path visited) info.references),
        BTreeSet.contains-keep (λ x. not (BTreeSet.contains x (BTreeSet.insert path visited))) q
            info.references,
      ),
    )
    | inr old ↦
        let (info', r', f) = h p old in
        (
          info',
          r',
          λ q c.
              unfold BTreeSet.contains in
              ground (
                arith,
                f q c,
                text_eq_iff path q,
                BTreeSet.contains-insert path q visited,
                BTreeSet.contains-append q queue
                    (unseen (BTreeSet.insert path visited) info.references),
              ),
        )
  ]

  abbrev Met : Text → List Text → List Text → Type 0
  Met root visited queue = (BTreeSet.contains root visited || BTreeSet.contains root queue) ≡ true

  Met-old :
      (root : Text) (visited queue : List Text) (path : Text)
      → BTreeSet.contains path visited ≡ true
      → Met root visited (path ∷ queue)
      → Met root visited queue
  Met-old root visited queue path old m =
      unfold BTreeSet.contains in ground (arith, text_eq_iff path root)

  Met-visit :
      (root : Text) (visited queue : List Text) (path : Text) (refs : List Text)
      → Met root visited (path ∷ queue)
      → Met root
          (BTreeSet.insert path visited)
          (queue ++ unseen (BTreeSet.insert path visited) refs)
  Met-visit root visited queue path refs m =
      unfold BTreeSet.contains in
      ground (
        arith,
        BTreeSet.contains-insert path root visited,
        BTreeSet.contains-append root queue (unseen (BTreeSet.insert path visited) refs),
      )

  ok-injective : {a b : PathInfo} → ◌≡◌ {A = Result StoreError PathInfo} (ok a) (ok b) → a ≡ b
  ok-injective h = ground arith

  -- The result is closed under references, and holds the root.
  closure_loop_complete :
      (root : Text) (fuel : ℕ) (visited queue : List Text) (total : ℕ) (c : Closure)
      → Closed visited queue
      → Met root visited queue
      → closure_loop digest db fuel visited queue total ≡ ok c
      → Closed c.paths [] × Met root c.paths []
  unfolding closure_loop
  closure_loop_complete root fuel visited [] total c h m e =
      subst (λ s. Closed s [] × Met root s []) (done-paths visited total c e) (h, m)
  closure_loop_complete root zero visited (path ∷ queue) total c h m e = absurd (ground arith)
  closure_loop_complete root (suc fuel) visited (path ∷ queue) total c h m e =
      elim (Bool-cases (BTreeSet.contains path visited)) [
        | inl old ↦
            closure_loop_complete root fuel visited queue total c
              (Closed-old visited queue path old h) (Met-old root visited queue path old m)
              (sym (closure_loop_old digest db fuel visited path queue total old) ∙ e)
        | inr new ↦ elim (Result-cases (require digest db path)) [
          | inr (x, r) ↦
              absurd
                (ground (arith, closure_loop_fails digest db fuel visited path queue total new r))
          | inl (info, r) ↦
              closure_loop_complete root fuel (BTreeSet.insert path visited)
                (queue ++ unseen (BTreeSet.insert path visited) info.references)
                ((total + info.nar_size) % 2 ^ 64) c (Closed-visit visited queue path info r h)
                (Met-visit root visited queue path info.references m)
                (sym (closure_loop_visits digest db fuel visited path queue total new r) ∙ e)
        ]
      ]

  Closed-step :
      (q p : Text) (s : List Text) (info : PathInfo)
      → Closed s []
      → require digest db q ≡ ok info
      → BTreeSet.contains p info.references ≡ true
      → BTreeSet.contains q s ≡ true
      → BTreeSet.contains p s ≡ true
  unfolding BTreeSet.contains
  Closed-step q p s info h e c m =
      let (info', e', f) = h q m in
      let same : info ≡ info' = ok-injective (sym e ∙ e') in
      let inside : BTreeSet.contains p info'.references ≡ true =
        subst (λ (i : PathInfo). BTreeSet.contains p i.references ≡ true) same c in
      ground (arith, f p inside)

  -- In a closed set, a chain of references never leaves.
  Closed-Reach :
      (root p : Text) (s : List Text)
      → Closed s []
      → Met root s []
      → Reach root p
      → BTreeSet.contains p s ≡ true
  Closed-Reach root p s h m here = unfold BTreeSet.contains in ground arith
  Closed-Reach root p s h m (via {p = q} info _ r e c) =
      Closed-step q p s info h e c (Closed-Reach root q s h m r)

  -- A failed search has met a reachable path whose metadata is missing or cannot be read.
  closure_loop-error :
      (root : Text) (fuel : ℕ) (visited queue : List Text) (total : ℕ) (x : StoreError)
      → AllReach root queue
      → closure_loop digest db fuel visited queue total ≡ err x
      → x ≢ out_of_fuel
      → (p : Text) × Reach root p × (require digest db p ≡ err x)
  unfolding closure_loop
  closure_loop-error root fuel visited [] total x w e n = absurd (ground arith)
  closure_loop-error root zero visited (path ∷ queue) total x w e n = absurd (ground arith)
  closure_loop-error root (suc fuel) visited (path ∷ queue) total x w e n =
      elim (Bool-cases (BTreeSet.contains path visited)) [
        | inl old ↦
            closure_loop-error root fuel visited queue total x (AllReach-tail root path queue w)
              (sym (closure_loop_old digest db fuel visited path queue total old) ∙ e) n
        | inr new ↦ elim (Result-cases (require digest db path)) [
          | inr (y, r) ↦ (
            path,
            w path (BTreeSet.contains-head path queue),
            ground (arith, closure_loop_fails digest db fuel visited path queue total new r),
          )
          | inl (info, r) ↦
              closure_loop-error root fuel (BTreeSet.insert path visited)
                (queue ++ unseen (BTreeSet.insert path visited) info.references)
                ((total + info.nar_size) % 2 ^ 64) x
                (AllReach-queue root path info (BTreeSet.insert path visited) queue
                  (AllReach-tail root path queue w) (w path (BTreeSet.contains-head path queue)) r)
                (sym (closure_loop_visits digest db fuel visited path queue total new r) ∙ e) n
        ]
      ]

  Met-root : (root : Text) → Met root [] (root ∷ [])
  Met-root root = unfold BTreeSet.contains in BTreeSet.contains-head root []

  AllReach-root : (root : Text) → AllReach root (root ∷ [])
  AllReach-root root p c = elim (BTreeSet.cons-cases root p [] c) [
    | inl e ↦ subst (Reach root) e here
    | inr m ↦ absurd (unfold BTreeSet.contains in ground arith)
  ]

  -- A closure that is computed holds a path exactly when the path is the root or a chain of
  -- references of registered paths leads to it.
  pub compute_closure_exact :
      (root p : Text) (c : Closure)
      → compute_closure digest db root ≡ ok c
      → (BTreeSet.contains p c.paths ≡ true) ↔ Reach root p
  unfolding compute_closure
  compute_closure_exact root p c e =
      let (closed, met) =
        closure_loop_complete root _ [] (root ∷ []) 0 c
          (λ q m. absurd (unfold BTreeSet.contains in ground arith)) (Met-root root) e in
      (
        closure_loop_sound root _ [] (root ∷ []) 0 c
            (λ q m. absurd (unfold BTreeSet.contains in ground arith)) (AllReach-root root) e p,
        Closed-Reach root p c.paths closed met,
      )

  -- The search fails with an error only if the lookup of a reachable path fails with it.
  pub compute_closure-error :
      (root : Text) (x : StoreError)
      → compute_closure digest db root ≡ err x
      → (p : Text) × Reach root p × (require digest db p ≡ err x)
  unfolding compute_closure
  compute_closure-error root x e =
      closure_loop-error root _ [] (root ∷ []) 0 x (AllReach-root root) e
        (λ h. compute_closure-ends digest db root (unfold compute_closure in (e ∙ ap err h)))

  -- In a computed closure every path is registered.
  pub compute_closure-registered :
      (root p : Text) (c : Closure)
      → compute_closure digest db root ≡ ok c
      → BTreeSet.contains p c.paths ≡ true
      → (info : PathInfo) × (require digest db p ≡ ok info)
  unfolding compute_closure
  compute_closure-registered root p c e m =
      let (closed, met) =
        closure_loop_complete root _ [] (root ∷ []) 0 c
          (λ q k. absurd (unfold BTreeSet.contains in ground arith)) (Met-root root) e in
      let (info, r, f) = closed p m in (info, r)
