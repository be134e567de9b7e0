-- ===== src/System/Roots/Removal.antt =====
-- What the removal of a generation's roots leaves.
use nix_redox.Base.{
  ℕ, ◌+◌, ◌%◌, ◌^◌, Text, Bool, true, false, Option, none, some, List, [], ◌∷◌, ◌&&◌, ◌||◌,
  if◌then◌else◌, ◌≡◌, ◌≢◌, refl, sym, ap, ◌∙◌, arith, Bool-cases, Option-cases, inl, inr,
}
use nix_redox.Base.Strings.{text_key, text_eq, text_eq_iff}
use nix_redox.Base.BTreeMap
use nix_redox.Base.Slices.{starts_with}
use nix_redox.Store.Roots.{GcRoots, GcRoot, RootEntry, symlink, other, list_roots, remove_root}
use nix_redox.System.Roots.{
  without, attempted, remove_prefixed, remove_generation_gc_roots, root_prefix,
}

get-without :
    (name j : Text) (roots : GcRoots)
    → BTreeMap.get j (without (remove_root name roots) roots)
      ≡ (if text_eq name j then none else BTreeMap.get j roots)
unfolding remove_root BTreeMap.contains_key
get-without name j roots = elim (Bool-cases (BTreeMap.contains_key name roots)) [
  | inl c ↦ rw (remove_root, c) (BTreeMap.get-remove name j roots)
  | inr c ↦ elim (Bool-cases (text_eq name j)) [
    | inr n ↦ rw (remove_root, c, n) refl
    | inl y ↦
        rw (remove_root, c, y, ← (text_eq_iff name j).0 y)
          (ground (arith, Option-cases (BTreeMap.get name roots)))
  ]
]

get-attempted :
    (unlinked : Bool) (name j : Text) (roots : GcRoots)
    → BTreeMap.get j (attempted unlinked name roots)
      ≡ (if unlinked && text_eq name j then none else BTreeMap.get j roots)
get-attempted true name j roots = get-without name j roots
get-attempted false name j roots = refl

-- Whether a root of the name is in the list.
named : Text → List GcRoot → Bool
named j [] = false
named j (root ∷ rest) = text_eq root.name j || named j rest

same_start :
    (prefix name j : Text) (b : Bool)
    → starts_with prefix name ≡ b
    → text_eq name j ≡ true
    → starts_with prefix j ≡ b
same_start prefix name j b p e = ap (starts_with prefix) (sym ((text_eq_iff name j).0 e)) ∙ p

same_unlinks :
    (unlinks : Text → Bool) (name j : Text) → text_eq name j ≡ true → unlinks name ≡ unlinks j
same_unlinks unlinks name j e = ap unlinks ((text_eq_iff name j).0 e)

-- Exactly the listed roots that begin with the prefix and can be removed go.
get-remove_prefixed :
    (unlinks : Text → Bool) (prefix j : Text) (listed : List GcRoot) (removed : ℕ) (roots : GcRoots)
    → BTreeMap.get j (remove_prefixed unlinks prefix listed removed roots).1
      ≡ (if unlinks j && starts_with prefix j && named j listed then none else BTreeMap.get j roots)
unfolding remove_prefixed named
get-remove_prefixed unlinks prefix j [] removed roots = ground arith
get-remove_prefixed unlinks prefix j (root ∷ rest) removed roots =
    elim (Bool-cases (starts_with prefix root.name)) [
      | inl p ↦
          let roots' = attempted (unlinks root.name) root.name roots in
          rw (p) (
            get-remove_prefixed unlinks prefix j rest ((removed + 1) % 2 ^ 32) roots'
            ∙ rw (get-attempted (unlinks root.name) root.name j roots) (
                ground
                  (arith, same_start prefix root.name j true p, same_unlinks unlinks root.name j)))
      | inr p ↦ rw (p) (
          get-remove_prefixed unlinks prefix j rest removed roots
          ∙ ground (arith, same_start prefix root.name j false p))
    ]

-- The roots whose names do not begin with the prefix of the generation stay.
pub get-remove_generation_gc_roots :
    (unlinks : Text → Bool) (roots : GcRoots) (id : ℕ) (j : Text)
    → starts_with (root_prefix id) j ≡ false
    → BTreeMap.get j (remove_generation_gc_roots unlinks roots id).1 ≡ BTreeMap.get j roots
unfolding remove_generation_gc_roots
get-remove_generation_gc_roots unlinks roots id j h =
    get-remove_prefixed unlinks (root_prefix id) j (list_roots roots) 0 roots
    ∙ rw (h) (ground arith)

is_link : Option RootEntry → Bool
is_link (some (symlink target)) = true
is_link e = false

named-list_roots :
    (j : Text) (roots : GcRoots)
    → BTreeMap.IsOrdered roots
    → named j (list_roots roots) ≡ is_link (BTreeMap.get j roots)
unfolding named list_roots is_link BTreeMap.get
named-list_roots j [] o = refl
named-list_roots j ((k, symlink target) ∷ rest) o = ground (arith, named-list_roots j rest o.1)
named-list_roots j ((k, other) ∷ rest) (above, o) = elim (Bool-cases (text_eq k j)) [
  | inr n ↦ rw (n) (named-list_roots j rest o)
  | inl y ↦ rw (y) (
      named-list_roots j rest o
      ∙ ap is_link (
          ap (λ x. BTreeMap.get x rest) (sym ((text_eq_iff k j).0 y))
          ∙ BTreeMap.get-Above k rest above))
]

-- The roots of a generation are gone after their removal: no link that can be removed is left under a
-- name with its prefix.
pub remove_generation_gc_roots-gone :
    (unlinks : Text → Bool) (roots : GcRoots) (id : ℕ) (j target : Text)
    → unlinks j ≡ true
    → BTreeMap.IsOrdered roots
    → starts_with (root_prefix id) j ≡ true
    → BTreeMap.get j (remove_generation_gc_roots unlinks roots id).1 ≢ some (symlink target)
unfolding remove_generation_gc_roots is_link
remove_generation_gc_roots-gone unlinks roots id j target u o h e =
    let after = get-remove_prefixed unlinks (root_prefix id) j (list_roots roots) 0 roots in
    absurd (ground (arith, after, named-list_roots j roots o))

-- A link that is left was there before.
pub remove_generation_gc_roots-links :
    (unlinks : Text → Bool) (roots : GcRoots) (id : ℕ) (j target : Text)
    → BTreeMap.get j (remove_generation_gc_roots unlinks roots id).1 ≡ some (symlink target)
    → BTreeMap.get j roots ≡ some (symlink target)
unfolding remove_generation_gc_roots
remove_generation_gc_roots-links unlinks roots id j target e =
    ground (arith, get-remove_prefixed unlinks (root_prefix id) j (list_roots roots) 0 roots)

IsOrdered-without :
    (name : Text) (roots : GcRoots)
    → BTreeMap.IsOrdered roots
    → BTreeMap.IsOrdered (without (remove_root name roots) roots)
unfolding remove_root
IsOrdered-without name roots o = elim (Bool-cases (BTreeMap.contains_key name roots)) [
  | inl c ↦ rw (remove_root, c) (BTreeMap.IsOrdered-remove name roots o)
  | inr c ↦ rw (remove_root, c) o
]

IsOrdered-attempted :
    (unlinked : Bool) (name : Text) (roots : GcRoots)
    → BTreeMap.IsOrdered roots
    → BTreeMap.IsOrdered (attempted unlinked name roots)
IsOrdered-attempted true name roots o = IsOrdered-without name roots o
IsOrdered-attempted false name roots o = o

IsOrdered-remove_prefixed :
    (unlinks : Text → Bool) (prefix : Text) (listed : List GcRoot) (removed : ℕ) (roots : GcRoots)
    → BTreeMap.IsOrdered roots
    → BTreeMap.IsOrdered (remove_prefixed unlinks prefix listed removed roots).1
unfolding remove_prefixed
IsOrdered-remove_prefixed unlinks prefix [] removed roots o = o
IsOrdered-remove_prefixed unlinks prefix (root ∷ rest) removed roots o =
    elim (Bool-cases (starts_with prefix root.name)) [
      | inl p ↦ rw (p) (
          IsOrdered-remove_prefixed unlinks prefix rest ((removed + 1) % 2 ^ 32)
            (attempted (unlinks root.name) root.name roots)
            (IsOrdered-attempted (unlinks root.name) root.name roots o))
      | inr p ↦ rw (p) (IsOrdered-remove_prefixed unlinks prefix rest removed roots o)
    ]

pub IsOrdered-remove_generation_gc_roots :
    (unlinks : Text → Bool) (roots : GcRoots) (id : ℕ)
    → BTreeMap.IsOrdered roots
    → BTreeMap.IsOrdered (remove_generation_gc_roots unlinks roots id).1
unfolding remove_generation_gc_roots
IsOrdered-remove_generation_gc_roots unlinks roots id o =
    IsOrdered-remove_prefixed unlinks (root_prefix id) (list_roots roots) 0 roots o
