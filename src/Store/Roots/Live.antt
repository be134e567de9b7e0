-- ===== src/Store/Roots/Live.antt =====
-- What the roots keep alive.
use nix_redox.Base.{
  Text, true, false, Option, none, some, List, [], ◌∷◌, ◌≡◌, ◌↔◌, subst, sym, arith,
}
use nix_redox.Base.{ok, err, ◌⊎◌, if◌then◌else◌, Bool-cases, Option-cases, Result-cases, inl, inr}
use nix_redox.Base.Strings.{text_key, text_eq, text_eq_iff}
use nix_redox.Base.BTreeMap
use nix_redox.Base.BTreeSet
use nix_redox.PathInfo
use nix_redox.PathInfo.{PathInfoDb}
use nix_redox.Store.Closure.{Closure, StoreError, compute_closure}
use nix_redox.Store.Closure.Exact.{Reach, compute_closure_exact}
use nix_redox.Store.Roots.{
  GcRoots, GcRoot, symlink, other, list_roots, add_root, remove_root, extend_live, live_loop,
  compute_live_set,
}

pub targets : List GcRoot → List Text
targets [] = []
targets (root ∷ roots) = root.target ∷ targets roots

-- A bound name is listed with its target.
pub contains-targets :
    (name target : Text) (roots : GcRoots)
    → BTreeMap.get name roots ≡ some (symlink target)
    → BTreeSet.contains target (targets (list_roots roots)) ≡ true
unfolding list_roots targets BTreeMap.get BTreeSet.contains
contains-targets name target [] e = cc
contains-targets name target ((j, symlink t) ∷ rest) e =
    ground (arith, contains-targets name target rest, text_eq_iff t target)
contains-targets name target ((j, other) ∷ rest) e =
    ground (arith, contains-targets name target rest)

module _ (digest : Text → Option Text) where
  -- `Keeps db target p`: the target is registered, its closure can be computed, and holds `p`.
  pub record Keeps (db : PathInfoDb) (target p : Text) : Type 0 where
    pub closure : Closure
    pub registered : PathInfo.is_registered digest db target ≡ true
    pub computed : compute_closure digest db target ≡ ok closure
    pub reached : Reach digest db target p

  extend_live-skip :
      (db : PathInfoDb) (live : List Text) (target : Text)
      → PathInfo.is_registered digest db target ≡ false
      → extend_live digest db live target ≡ live
  unfolding extend_live
  extend_live-skip db live target e = rw (e, extend_live)

  extend_live-fails :
      (db : PathInfoDb) (live : List Text) (target : Text) {x : StoreError}
      → PathInfo.is_registered digest db target ≡ true
      → compute_closure digest db target ≡ err x
      → extend_live digest db live target ≡ live
  unfolding extend_live
  extend_live-fails db live target e r = rw (e, extend_live) (rw (r, extend_live))

  extend_live-adds :
      (db : PathInfoDb) (live : List Text) (target : Text) {c : Closure}
      → PathInfo.is_registered digest db target ≡ true
      → compute_closure digest db target ≡ ok c
      → extend_live digest db live target ≡ BTreeSet.extend live c.paths
  unfolding extend_live
  extend_live-adds db live target e r = rw (e, extend_live) (rw (r, extend_live))

  extend_live-grows :
      (db : PathInfoDb) (live : List Text) (target p : Text)
      → BTreeSet.contains p live ≡ true
      → BTreeSet.contains p (extend_live digest db live target) ≡ true
  extend_live-grows db live target p h =
      elim (Bool-cases (PathInfo.is_registered digest db target)) [
        | inr n ↦ rw (extend_live-skip db live target n) h
        | inl y ↦ elim (Result-cases (compute_closure digest db target)) [
          | inr (x, r) ↦ rw (extend_live-fails db live target y r) h
          | inl (c, r) ↦
              rw (extend_live-adds db live target y r)
                (ground (arith, BTreeSet.contains-extend p live c.paths))
        ]
      ]

  extend_live-Keeps :
      (db : PathInfoDb) (live : List Text) (target p : Text)
      → Keeps db target p
      → BTreeSet.contains p (extend_live digest db live target) ≡ true
  extend_live-Keeps db live target p k =
      rw (extend_live-adds db live target k.registered k.computed) (
        ground (
          arith,
          BTreeSet.contains-extend p live k.closure.paths,
          (compute_closure_exact digest db target p k.closure k.computed).1 k.reached,
        ))

  extend_live-cases :
      (db : PathInfoDb) (live : List Text) (target p : Text)
      → BTreeSet.contains p (extend_live digest db live target) ≡ true
      → (BTreeSet.contains p live ≡ true) ⊎ Keeps db target p
  extend_live-cases db live target p = elim (Bool-cases (PathInfo.is_registered digest db target)) [
    | inr n ↦ rw (extend_live-skip db live target n) (λ h. inl h)
    | inl y ↦ elim (Result-cases (compute_closure digest db target)) [
      | inr (x, r) ↦ rw (extend_live-fails db live target y r) (λ h. inl h)
      | inl (c, r) ↦ rw (extend_live-adds db live target y r) (λ h.
          elim (Bool-cases (BTreeSet.contains p live)) [
            | inl old ↦ inl old
            | inr new ↦ inr (record {
              closure = c;
              registered = y;
              computed = r;
              reached =
                  (compute_closure_exact digest db target p c r).0
                    (ground (arith, BTreeSet.contains-extend p live c.paths));
            })
          ])
    ]
  ]

  live_loop-grows :
      (db : PathInfoDb) (live : List Text) (roots : List GcRoot) (p : Text)
      → BTreeSet.contains p live ≡ true
      → BTreeSet.contains p (live_loop digest db live roots) ≡ true
  unfolding live_loop
  live_loop-grows db live [] p h = h
  live_loop-grows db live (root ∷ roots) p h =
      live_loop-grows db (extend_live digest db live root.target) roots p
        (extend_live-grows db live root.target p h)

  live_loop-Keeps :
      (db : PathInfoDb) (live : List Text) (roots : List GcRoot) (target p : Text)
      → BTreeSet.contains target (targets roots) ≡ true
      → Keeps db target p
      → BTreeSet.contains p (live_loop digest db live roots) ≡ true
  unfolding live_loop targets
  live_loop-Keeps db live [] target p c k = absurd (unfold BTreeSet.contains in ground arith)
  live_loop-Keeps db live (root ∷ roots) target p c k =
      elim (BTreeSet.cons-cases root.target target (targets roots) c) [
        | inl e ↦
            live_loop-grows db (extend_live digest db live root.target) roots p
              (extend_live-Keeps db live root.target p (subst (λ t. Keeps db t p) (sym e) k))
        | inr later ↦
            live_loop-Keeps db (extend_live digest db live root.target) roots target p later k
      ]

  live_loop-cases :
      (db : PathInfoDb) (live : List Text) (roots : List GcRoot) (p : Text)
      → BTreeSet.contains p (live_loop digest db live roots) ≡ true
      → (BTreeSet.contains p live ≡ true)
        ⊎ ((target : Text) × (BTreeSet.contains target (targets roots) ≡ true) × Keeps db target p)
  unfolding live_loop targets
  live_loop-cases db live [] p h = inl h
  live_loop-cases db live (root ∷ roots) p h =
      elim (live_loop-cases db (extend_live digest db live root.target) roots p h) [
        | inr (target, c, k) ↦
            inr (target, BTreeSet.contains-tail root.target target (targets roots) c, k)
        | inl c ↦ elim (extend_live-cases db live root.target p c) [
          | inl old ↦ inl old
          | inr k ↦ inr (root.target, BTreeSet.contains-head root.target (targets roots), k)
        ]
      ]

  -- A path is live exactly when some root links to a registered path whose closure can be computed
  -- and from which references lead to the path.
  pub compute_live_set_exact :
      (db : PathInfoDb) (roots : GcRoots) (p : Text)
      → (BTreeSet.contains p (compute_live_set digest db roots) ≡ true) ↔ (
          (target : Text) × (BTreeSet.contains target (targets (list_roots roots)) ≡ true)
          × Keeps db target p)
  unfolding compute_live_set
  compute_live_set_exact db roots p = (
    λ h. elim (live_loop-cases db [] (list_roots roots) p h) [
      | inl c ↦ absurd (unfold BTreeSet.contains in ground arith)
      | inr k ↦ k
    ],
    λ (target, c, k). live_loop-Keeps db [] (list_roots roots) target p c k,
  )

  get-add_root :
      (roots roots' : GcRoots) (name path j : Text)
      → add_root digest name path roots ≡ ok roots'
      → BTreeMap.get j roots'
        ≡ (if text_eq name j then some (symlink path) else BTreeMap.get j roots)
  unfolding add_root
  get-add_root roots roots' name path j e = elim (Option-cases (digest path)) [
    | inl n ↦ absurd (ground arith)
    | inr (h, d) ↦ ground (
      arith,
      BTreeMap.get-insert name j (symlink path) roots,
      BTreeMap.get-insert name j (symlink path) (BTreeMap.remove name roots),
      BTreeMap.get-remove name j roots,
    )
  ]

  -- Once a root has been added for a registered path with a computable closure, everything that the
  -- path refers to, directly or not, is live.
  pub add_root-live :
      (db : PathInfoDb) (roots roots' : GcRoots) (name path p : Text)
      → add_root digest name path roots ≡ ok roots'
      → Keeps db path p
      → BTreeSet.contains p (compute_live_set digest db roots') ≡ true
  add_root-live db roots roots' name path p e k = (compute_live_set_exact db roots' p).1 (
    path,
    contains-targets name path roots'
        (ground (arith, get-add_root roots roots' name path name e, text_eq_iff name name)),
    k,
  )

  -- Adding a root takes no other root away, and replaces a root of the same name.
  pub add_root-get :
      (roots roots' : GcRoots) (name path j : Text)
      → add_root digest name path roots ≡ ok roots'
      → BTreeMap.get j roots'
        ≡ (if text_eq name j then some (symlink path) else BTreeMap.get j roots)
  add_root-get = get-add_root

-- A removal that succeeds was of a root that was there, and takes that name away and no other.
pub get-remove_root :
    (roots roots' : GcRoots) (name j : Text)
    → remove_root name roots ≡ ok roots'
    → (BTreeMap.contains_key name roots ≡ true)
      × (BTreeMap.get j roots' ≡ (if text_eq name j then none else BTreeMap.get j roots))
unfolding remove_root
get-remove_root roots roots' name j e = ground (arith, BTreeMap.get-remove name j roots)
