-- ===== src/System/Roots/Packages.antt =====
-- The roots that a generation gets for its packages.
use nix_redox.Base.{
  ℕ, Text, bytes, Bool, true, false, not, ◌&&◌, Option, none, some, List, [], ◌∷◌, ok, err,
  if◌then◌else◌, ◌≡◌, refl, sym, ap, ◌∙◌, arith, Bool-cases, Option-cases, Result-cases, inl, inr,
}
use nix_redox.Base.Strings.{text_key, text_eq, text_eq_iff}
use nix_redox.Base.BTreeMap
use nix_redox.Base.BTreeMap.{BTreeMap}
use nix_redox.Base.Slices.{is_empty, strip_prefix-append, strip_prefix}
use nix_redox.Store.Roots.{GcRoots, RootEntry, RootError, symlink, add_root}
use nix_redox.Store.Roots.Live.{add_root-get}
use nix_redox.System.{Package, BootComponents, Manifest, ManifestFile}
use nix_redox.System.Roots.{
  root_prefix, root_name, counted, package_roots, add_generation_gc_roots, optional_root,
  add_boot_gc_roots, add_output_gc_roots, migrate_gc_roots_if_needed, update_system_gc_roots,
}

root_name-injective : (id : ℕ) (a b : Text) → root_name id a ≡ root_name id b → a ≡ b
unfolding root_name
root_name-injective id a b e = some-injective (
    sym (strip_prefix-append (root_prefix id) a)
    ∙ ap (strip_prefix (root_prefix id)) e
    ∙ strip_prefix-append (root_prefix id) b)
  where
    some-injective : {x y : Text} → some x ≡ some y → x ≡ y
    some-injective h = ground (arith, h)

same : (id : ℕ) (a b : Text) → a ≡ b → root_name id a ≡ root_name id b
same id a b e = ap (root_name id) e

text_eq-root_name : (id : ℕ) (a b : Text) → text_eq (root_name id a) (root_name id b) ≡ text_eq a b
text_eq-root_name id a b = ground (
  arith,
  text_eq_iff (root_name id a) (root_name id b),
  text_eq_iff a b,
  root_name-injective id a b,
  same id a b,
)

module _ (digest : Text → Option Text) where
  -- The path has the form of a store path.
  abbrev has_digest : Text → Bool
  has_digest path = elim (digest path) [ none ↦ false | some hash ↦ true ]

  abbrev is_rootable : Package → Bool
  is_rootable pkg = not (is_empty pkg.store_path) && has_digest pkg.store_path

  -- The path of the last package of a name that has one.
  pub last_path : Text → List Package → Option Text
  last_path name [] = none
  last_path name (pkg ∷ pkgs) = elim (last_path name pkgs) [
    | some path ↦ some path
    | none ↦ if text_eq pkg.name name && is_rootable pkg then some pkg.store_path else none
  ]

  abbrev pub link_or : Option Text → Option RootEntry → Option RootEntry
  link_or none old = old
  link_or (some path) old = some (symlink path)

  step : ℕ → Package → ℕ × GcRoots → ℕ × GcRoots
  step gen_id pkg state =
      if is_empty pkg.store_path
      then state
      else counted (add_root digest (root_name gen_id pkg.name) pkg.store_path state.1) state

  add_root-ok :
      (name path : Text) (roots : GcRoots)
      → has_digest path ≡ true
      → (roots' : GcRoots) × (add_root digest name path roots ≡ ok roots')
  unfolding add_root
  add_root-ok name path roots h = elim (Option-cases (digest path)) [
    | inl n ↦ absurd (ground arith)
    | inr (hash, d) ↦ elim (Result-cases (add_root digest name path roots)) [
      | inl r ↦ r
      | inr (x, e) ↦ absurd (ground arith)
    ]
  ]

  add_root-err :
      (name path : Text) (roots : GcRoots)
      → has_digest path ≡ false
      → (x : RootError) × (add_root digest name path roots ≡ err x)
  unfolding add_root
  add_root-err name path roots h = elim (Option-cases (digest path)) [
    | inl n ↦ elim (Result-cases (add_root digest name path roots)) [
      | inl (r, e) ↦ absurd (ground arith)
      | inr r ↦ r
    ]
    | inr (hash, d) ↦ absurd (ground arith)
  ]

  get-step :
      (id : ℕ) (pkg : Package) (state : ℕ × GcRoots) (j : Text)
      → BTreeMap.get j (step id pkg state).1 ≡ (
          if text_eq (root_name id pkg.name) j && is_rootable pkg
          then some (symlink pkg.store_path)
          else BTreeMap.get j state.1)
  unfolding step
  get-step id pkg state j = elim (Bool-cases (is_empty pkg.store_path)) [
    | inl e ↦ rw (e) (ground arith)
    | inr e ↦ elim (Bool-cases (has_digest pkg.store_path)) [
      | inl d ↦
          let (roots', a) = add_root-ok (root_name id pkg.name) pkg.store_path state.1 d in
          rw (e, a)
            (add_root-get digest state.1 roots' (root_name id pkg.name) pkg.store_path j a
              ∙ rw (d) (ground arith))
      | inr d ↦
          let (x, a) = add_root-err (root_name id pkg.name) pkg.store_path state.1 d in
          rw (e, a) (ground arith)
    ]
  ]

  package_roots-get :
      (id : ℕ) (pkgs : List Package) (state : ℕ × GcRoots) (name : Text)
      → BTreeMap.get (root_name id name) (package_roots digest id pkgs state).1
        ≡ link_or (last_path name pkgs) (BTreeMap.get (root_name id name) state.1)
  unfolding package_roots last_path step
  package_roots-get id [] state name = refl
  package_roots-get id (pkg ∷ pkgs) state name =
      package_roots-get id pkgs (step id pkg state) name
      ∙ ap (link_or (last_path name pkgs)) (get-step id pkg state (root_name id name))
      ∙ elim (Option-cases (last_path name pkgs)) [
        | inr (path, e) ↦ rw (e) refl
        | inl n ↦ rw (n, text_eq-root_name id pkg.name name) (ground arith)
      ]

  optional_root-get :
      (id : ℕ) (other : Text) (path : Option Text) (state : ℕ × GcRoots) (name : Text)
      → text_eq other name ≡ false
      → BTreeMap.get (root_name id name) (optional_root digest id other path state).1
        ≡ BTreeMap.get (root_name id name) state.1
  optional_root-get id other none state name h = refl
  optional_root-get id other (some path) state name h =
      elim (Result-cases (add_root digest (root_name id other) path state.1)) [
        | inr (x, e) ↦ rw (e) refl
        | inl (roots', e) ↦ rw (e) (
            add_root-get digest state.1 roots' (root_name id other) path (root_name id name) e
            ∙ rw (text_eq-root_name id other name, h) refl)
      ]

  -- The names of the roots that are not for packages.
  unfoldable pub IsPackageName : Text → Type 0
  IsPackageName name =
      (text_eq (bytes "boot-kernel") name ≡ false)
      × ((text_eq (bytes "boot-initfs") name ≡ false)
          × ((text_eq (bytes "boot-bootloader") name ≡ false)
              × ((text_eq (bytes "toplevel") name ≡ false)
                  × (text_eq (bytes "etc-source") name ≡ false))))

  boot-get :
      (roots : GcRoots) (id : ℕ) (boot : Option BootComponents) (name : Text)
      → IsPackageName name
      → BTreeMap.get (root_name id name) (add_boot_gc_roots digest roots id boot).1
        ≡ BTreeMap.get (root_name id name) roots
  unfolding add_boot_gc_roots IsPackageName
  boot-get roots id none name h = refl
  boot-get roots id (some boot) name (k, (i, (b, h))) =
      optional_root-get id (bytes "boot-bootloader") _ _ name b
      ∙ optional_root-get id (bytes "boot-initfs") _ _ name i
      ∙ optional_root-get id (bytes "boot-kernel") _ _ name k

  outputs-get :
      (roots : GcRoots) (id : ℕ) (m : Manifest) (name : Text)
      → IsPackageName name
      → BTreeMap.get (root_name id name) (add_output_gc_roots digest roots id m).1
        ≡ BTreeMap.get (root_name id name) roots
  unfolding add_output_gc_roots IsPackageName
  outputs-get roots id m name (k, (i, (b, (t, e)))) =
      optional_root-get id (bytes "etc-source") _ _ name e
      ∙ optional_root-get id (bytes "toplevel") _ _ name t

  -- After an update for a manifest the name of a package is that of a root for the path of the last
  -- package in the manifest that has this name and a well-formed path, where there is one. The names of
  -- boot components and outputs are left out.
  pub update_system_gc_roots-get :
      (roots : GcRoots) (dir : BTreeMap Text ManifestFile) (m : Manifest) (name : Text)
      → IsPackageName name
      → BTreeMap.get (root_name m.generation.id name) (update_system_gc_roots digest roots dir m).0
        ≡ link_or (last_path name m.packages) (
            BTreeMap.get
              (root_name m.generation.id name)
              (migrate_gc_roots_if_needed digest roots dir))
  unfolding update_system_gc_roots add_generation_gc_roots
  update_system_gc_roots-get roots dir m name h =
      outputs-get _ m.generation.id m name h
      ∙ boot-get _ m.generation.id m.boot name h
      ∙ package_roots-get m.generation.id m.packages
          (0, migrate_gc_roots_if_needed digest roots dir) name
