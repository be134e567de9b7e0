-- ===== src/Activation/Diffs.antt =====
-- What the comparisons of manifests find, and when a profile is rebuilt.
use nix_redox.Base.{
  ℕ, Text, Bool, true, false, ◌&&◌, Option, none, some, List, [], ◌∷◌, map, if◌then◌else◌, ◌≡◌, ◌↔◌,
  refl, sym, ap, ◌∙◌, arith, Bool-cases, Option-cases, inl, inr,
}
use nix_redox.Base.Strings.{text_key, text_eq, text_eq_iff}
use nix_redox.Base.Slices.{is_empty}
use nix_redox.Base.BTreeMap
use nix_redox.Base.BTreeMap.{BTreeMap}
use nix_redox.System.{Package, Manifest}
use nix_redox.Activation.{
  added, changed, insert_packages, by_name, package_differs, package_change, name_of, plan,
}

module _ {ℓ} {V : Type ℓ} where
  -- A new entry is in the new map, and not in the old one.
  pub added_only : Option V → Option V → Option V
  added_only none new = new
  added_only (some o) new = none

  pub get-added :
      (name : Text) (old new : BTreeMap Text V)
      → BTreeMap.get name (added old new)
        ≡ added_only (BTreeMap.get name old) (BTreeMap.get name new)
  unfolding added added_only BTreeMap.get BTreeMap.contains_key
  get-added name old [] = ground (arith, Option-cases (BTreeMap.get name old))
  get-added name old ((k, v) ∷ new) = elim (Bool-cases (text_eq k name)) [
    | inr n ↦ elim (Option-cases (BTreeMap.get k old)) [
      | inl e ↦ rw (e, BTreeMap.contains_key, n) (get-added name old new)
      | inr (x, e) ↦ rw (e, BTreeMap.contains_key, n) (get-added name old new)
    ]
    | inl y ↦
        let same : BTreeMap.get name old ≡ BTreeMap.get k old =
          ap (λ j. BTreeMap.get j old) (sym ((text_eq_iff k name).0 y)) in
        elim (Option-cases (BTreeMap.get k old)) [
          | inl e ↦ rw (e, BTreeMap.contains_key, y, same ∙ e) refl
          | inr (x, e) ↦
              rw (e, BTreeMap.contains_key, y) (get-added name old new ∙ rw (same ∙ e) refl)
        ]
  ]

  module _ (differs : V → V → Bool) where
    -- A changed entry is in both maps, and differs.
    pub both_differ : Option V → Option V → Option (V × V)
    both_differ none new = none
    both_differ (some o) none = none
    both_differ (some o) (some n) = if differs o n then some (o, n) else none

    both_differ-absent : (o : Option V) → both_differ o none ≡ none
    unfolding both_differ
    both_differ-absent none = refl
    both_differ-absent (some x) = refl

    pub get-changed :
        (name : Text) (old new : BTreeMap Text V)
        → BTreeMap.IsOrdered new
        → BTreeMap.get name (changed differs old new)
          ≡ both_differ (BTreeMap.get name old) (BTreeMap.get name new)
    unfolding changed both_differ BTreeMap.get
    get-changed name old [] o = sym (both_differ-absent (BTreeMap.get name old))
    get-changed name old ((k, v) ∷ new) (above, o) = elim (Bool-cases (text_eq k name)) [
      | inr n ↦ elim (Option-cases (BTreeMap.get k old)) [
        | inl e ↦ rw (e, n) (get-changed name old new o)
        | inr (x, e) ↦ elim (Bool-cases (differs x v)) [
          | inl d ↦ rw (e, d, n) (get-changed name old new o)
          | inr d ↦ rw (e, d, n) (get-changed name old new o)
        ]
      ]
      | inl y ↦
          let same : BTreeMap.get name old ≡ BTreeMap.get k old =
            ap (λ j. BTreeMap.get j old) (sym ((text_eq_iff k name).0 y)) in
          let absent : BTreeMap.get name new ≡ none =
            ap (λ j. BTreeMap.get j new) (sym ((text_eq_iff k name).0 y))
            ∙ BTreeMap.get-Above k new above in
          let none_left : BTreeMap.get name (changed differs old new) ≡ none =
            get-changed name old new o
            ∙ ap (both_differ (BTreeMap.get name old)) absent
            ∙ both_differ-absent (BTreeMap.get name old) in
          elim (Option-cases (BTreeMap.get k old)) [
            | inl e ↦ rw (e, y, same ∙ e) none_left
            | inr (x, e) ↦ elim (Bool-cases (differs x v)) [
              | inl d ↦ rw (e, same ∙ e, d, y) (rw (d) refl)
              | inr d ↦ rw (e, same ∙ e, d, y) rw (d) none_left
            ]
          ]
    ]

  get-empty : (m : BTreeMap Text V) → is_empty m ≡ true → (name : Text) → BTreeMap.get name m ≡ none
  unfolding BTreeMap.get
  get-empty [] h name = refl
  get-empty (e ∷ m) h name = absurd (ground arith)

  empty-get :
      (m : BTreeMap Text V) → ((name : Text) → BTreeMap.get name m ≡ none) → is_empty m ≡ true
  unfolding BTreeMap.get
  empty-get [] h = refl
  empty-get ((k, v) ∷ m) h = absurd (ground (arith, h k, text_eq_iff k k))

is_empty-map {ℓ κ} :
    {A : Type ℓ} {B : Type κ} (f : A → B) (xs : List A) → is_empty (map f xs) ≡ is_empty xs
is_empty-map f [] = refl
is_empty-map f (x ∷ xs) = refl

-- The last package of a name.
pub last_named : Text → List Package → Option Package
last_named name [] = none
last_named name (p ∷ ps) = elim (last_named name ps) [
  | some q ↦ some q
  | none ↦ if text_eq p.name name then some p else none
]

abbrev or_before : Option Package → Option Package → Option Package
or_before none old = old
or_before (some p) old = some p

get-insert_packages :
    (name : Text) (ps : List Package) (m : BTreeMap Text Package)
    → BTreeMap.get name (insert_packages ps m)
      ≡ or_before (last_named name ps) (BTreeMap.get name m)
unfolding insert_packages last_named
get-insert_packages name [] m = refl
get-insert_packages name (p ∷ ps) m =
    get-insert_packages name ps (BTreeMap.insert p.name p m)
    ∙ ap (or_before (last_named name ps)) (BTreeMap.get-insert p.name name p m)
    ∙ elim (Option-cases (last_named name ps)) [
      | inl n ↦ rw (n) (ground arith)
      | inr (q, e) ↦ rw (e) refl
    ]

get-by_name :
    (name : Text) (ps : List Package) → BTreeMap.get name (by_name ps) ≡ last_named name ps
unfolding by_name BTreeMap.get
get-by_name name ps =
    get-insert_packages name ps []
    ∙ elim (Option-cases (last_named name ps)) [ inl n ↦ rw (n) refl | inr (q, e) ↦ rw (e) refl ]

IsOrdered-insert_packages :
    (ps : List Package) (m : BTreeMap Text Package)
    → BTreeMap.IsOrdered m
    → BTreeMap.IsOrdered (insert_packages ps m)
unfolding insert_packages
IsOrdered-insert_packages [] m o = o
IsOrdered-insert_packages (p ∷ ps) m o =
    IsOrdered-insert_packages ps (BTreeMap.insert p.name p m)
      (BTreeMap.IsOrdered-insert p.name p m o)

IsOrdered-by_name : (ps : List Package) → BTreeMap.IsOrdered (by_name ps)
unfolding by_name
IsOrdered-by_name ps = IsOrdered-insert_packages ps [] tt

-- Both have a package of the same version in the same place, or none has one.
pub same_package : Option Package → Option Package → Bool
same_package none none = true
same_package none (some n) = false
same_package (some o) none = false
same_package (some o) (some n) = text_eq o.version n.version && text_eq o.store_path n.store_path

same_both : {o p n q : Option Package} → o ≡ p → n ≡ q → same_package o n ≡ same_package p q
same_both e f = rw (e, f) refl

-- No comparison finds anything at a name.
record Nothing (o n : Option Package) : Type 0 where
  not_added : added_only o n ≡ none
  not_removed : added_only n o ≡ none
  not_changed : both_differ package_differs o n ≡ none

same→Nothing : (o n : Option Package) → same_package o n ≡ true → Nothing o n
unfolding added_only both_differ same_package
same→Nothing none none h = record { not_added = refl; not_removed = refl; not_changed = refl }
same→Nothing none (some n) h = absurd (ground arith)
same→Nothing (some o) none h = absurd (ground arith)
same→Nothing (some o) (some n) h = record {
  not_added = refl;
  not_removed = refl;
  not_changed = ground arith;
}

Nothing→same : (o n : Option Package) → Nothing o n → same_package o n ≡ true
unfolding added_only both_differ same_package
Nothing→same none none h = refl
Nothing→same none (some n) h = absurd (ground (arith, h.not_added))
Nothing→same (some o) none h = absurd (ground (arith, h.not_removed))
Nothing→same (some o) (some n) h = ground (arith, h.not_changed)

module _ (binaries : List Package → ℕ) (old new : Manifest) where
  abbrev olds : BTreeMap Text Package
  olds = by_name old.packages

  abbrev news : BTreeMap Text Package
  news = by_name new.packages

  -- The three comparisons are empty.
  record Unchanged : Type 0 where
    none_added : is_empty (added olds news) ≡ true
    none_removed : is_empty (added news olds) ≡ true
    none_changed : is_empty (changed package_differs olds news) ≡ true

  rebuild→Unchanged : (plan binaries old new).profile_needs_rebuild ≡ false → Unchanged
  unfolding plan
  rebuild→Unchanged h = record {
    none_added = ground (arith, is_empty-map name_of (added olds news));
    none_removed = ground (arith, is_empty-map name_of (added news olds));
    none_changed = ground (arith, is_empty-map package_change (changed package_differs olds news));
  }

  Unchanged→rebuild : Unchanged → (plan binaries old new).profile_needs_rebuild ≡ false
  unfolding plan
  Unchanged→rebuild u = ground (
    arith,
    u.none_added,
    u.none_removed,
    u.none_changed,
    is_empty-map name_of (added olds news),
    is_empty-map name_of (added news olds),
    is_empty-map package_change (changed package_differs olds news),
  )

  Unchanged→Nothing :
      Unchanged → (name : Text) → Nothing (BTreeMap.get name olds) (BTreeMap.get name news)
  Unchanged→Nothing u name = record {
    not_added = sym (get-added name olds news) ∙ get-empty (added olds news) u.none_added name;
    not_removed = sym (get-added name news olds) ∙ get-empty (added news olds) u.none_removed name;
    not_changed =
        sym (get-changed package_differs name olds news (IsOrdered-by_name new.packages))
        ∙ get-empty (changed package_differs olds news) u.none_changed name;
  }

  Nothing→Unchanged :
      ((name : Text) → Nothing (BTreeMap.get name olds) (BTreeMap.get name news)) → Unchanged
  Nothing→Unchanged h = record {
    none_added =
        empty-get (added olds news) (λ name. get-added name olds news ∙ (h name).not_added);
    none_removed =
        empty-get (added news olds) (λ name. get-added name news olds ∙ (h name).not_removed);
    none_changed = empty-get (changed package_differs olds news) (λ name.
        get-changed package_differs name olds news (IsOrdered-by_name new.packages)
        ∙ (h name).not_changed);
  }

  -- A profile is not rebuilt exactly if, for every name, the last packages of the name in the old and in
  -- the new manifest have the same version and store path, or neither manifest has one.
  pub plan-profile_needs_rebuild : ((plan binaries old new).profile_needs_rebuild ≡ false) ↔ (
      (name : Text)
      → same_package (last_named name old.packages) (last_named name new.packages) ≡ true)
  plan-profile_needs_rebuild = (
    λ h name.
        rw (← get-by_name name old.packages, ← get-by_name name new.packages)
          (Nothing→same _ _ (Unchanged→Nothing (rebuild→Unchanged h) name)),
    λ h. Unchanged→rebuild (
        Nothing→Unchanged (λ name.
          same→Nothing _ _
            (same_both (get-by_name name old.packages) (get-by_name name new.packages) ∙ h name))),
  )
