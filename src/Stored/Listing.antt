-- ===== src/Stored/Listing.antt =====
-- What a listing shows.
use nix_redox.Base.{
  Text, Bool, true, false, not, ◌&&◌, ◌||◌, Option, none, some, List, [], ◌∷◌, ◌≡◌, refl, ap, ◌∙◌,
  arith, Bool-cases, Option-cases, inl, inr,
}
use nix_redox.Base.Strings.{text_key, text_eq, text_eq_iff, text_lt}
use nix_redox.Base.Slices.{is_empty, strip_prefix, split_once}
use nix_redox.Base.BTreeMap
use nix_redox.Base.BTreeMap.{BTreeMap}
use nix_redox.Nar.{ManifestEntry}
use nix_redox.Stored.{
  ManifestDirEntry, StoreDaemon, any_entry, directory_entry, direct_entry, or_insert, insert_entry,
  list_loop, values, prefix_of, list_from_manifest,
}

abbrev child_in : Text → Option (Text × Text) → Text → Bool
child_in rel (some (dir, rest)) name = text_eq dir name
child_in rel none name = not (is_empty rel) && text_eq rel name

-- The path of the entry is the prefix, the name, and nothing more or a slash and more.
pub is_child : Text → Text → ManifestEntry → Bool
is_child prefix name e = elim (strip_prefix prefix e.path) [
  | none ↦ false
  | some rel ↦ child_in rel (split_once b'/' rel) name
]

contains-insert :
    (k name : Text) (v : ManifestDirEntry) (m : BTreeMap Text ManifestDirEntry)
    → BTreeMap.contains_key name (BTreeMap.insert k v m)
      ≡ (text_eq k name || BTreeMap.contains_key name m)
unfolding BTreeMap.contains_key
contains-insert k name v m =
    rw (BTreeMap.contains_key, BTreeMap.get-insert k name v m) (ground arith)

same_key :
    (k name : Text) (m : BTreeMap Text ManifestDirEntry)
    → text_eq k name ≡ true
    → BTreeMap.contains_key k m ≡ BTreeMap.contains_key name m
same_key k name m e = ap (λ j. BTreeMap.contains_key j m) ((text_eq_iff k name).0 e)

contains-or_insert :
    (k name : Text) (m : BTreeMap Text ManifestDirEntry)
    → BTreeMap.contains_key name (or_insert k m) ≡ (text_eq k name || BTreeMap.contains_key name m)
contains-or_insert k name m = elim (Bool-cases (BTreeMap.contains_key k m)) [
  | inl c ↦ rw (c) (ground (arith, same_key k name m))
  | inr c ↦ rw (c) (contains-insert k name (directory_entry k) m)
]

contains-insert_entry :
    (prefix name : Text) (e : ManifestEntry) (m : BTreeMap Text ManifestDirEntry)
    → BTreeMap.contains_key name (insert_entry prefix e m)
      ≡ (is_child prefix name e || BTreeMap.contains_key name m)
unfolding insert_entry is_child
contains-insert_entry prefix name e m = elim (Option-cases (strip_prefix prefix e.path)) [
  | inl n ↦ rw (insert_entry, is_child, n) refl
  | inr (rel, r) ↦ elim (Option-cases (split_once b'/' rel)) [
    | inr ((dir, rest), q) ↦ rw (insert_entry, is_child, r, q) (contains-or_insert dir name m)
    | inl n ↦ elim (Bool-cases (is_empty rel)) [
      | inl y ↦ rw (insert_entry, is_child, r, n, y) refl
      | inr y ↦
          rw (insert_entry, is_child, r, n, y) (contains-insert rel name (direct_entry rel e) m)
    ]
  ]
]

contains-list_loop :
    (prefix name : Text) (manifest : List ManifestEntry) (m : BTreeMap Text ManifestDirEntry)
    → BTreeMap.contains_key name (list_loop prefix manifest m)
      ≡ (any_entry (is_child prefix name) manifest || BTreeMap.contains_key name m)
unfolding list_loop any_entry
contains-list_loop prefix name [] m = refl
contains-list_loop prefix name (e ∷ es) m =
    contains-list_loop prefix name es (insert_entry prefix e m)
    ∙ rw (contains-insert_entry prefix name e m) (ground arith)

-- Every entry lies under its name.
IsNamed : BTreeMap Text ManifestDirEntry → Type 0
IsNamed [] = Unit
IsNamed ((k, e) ∷ m) = (e.name ≡ k) × IsNamed m

IsNamed-insert :
    (k : Text) (e : ManifestDirEntry) (m : BTreeMap Text ManifestDirEntry)
    → e.name ≡ k
    → IsNamed m
    → IsNamed (BTreeMap.insert k e m)
unfolding IsNamed BTreeMap.insert
IsNamed-insert k e [] h n = (h, tt)
IsNamed-insert k e ((j, f) ∷ m) h (q, n) = elim (Bool-cases (text_eq j k)) [
  | inl y ↦ rw (y) (h, n)
  | inr y ↦ elim (Bool-cases (text_lt k j)) [
    | inl l ↦ rw (y, l) (h, (q, n))
    | inr l ↦ rw (y, l) (q, IsNamed-insert k e m h n)
  ]
]

IsNamed-insert_entry :
    (prefix : Text) (e : ManifestEntry) (m : BTreeMap Text ManifestDirEntry)
    → IsNamed m
    → IsNamed (insert_entry prefix e m)
unfolding insert_entry
IsNamed-insert_entry prefix e m n = elim (Option-cases (strip_prefix prefix e.path)) [
  | inl s ↦ rw (s, insert_entry) n
  | inr (rel, r) ↦ elim (Option-cases (split_once b'/' rel)) [
    | inr ((dir, rest), q) ↦ elim (Bool-cases (BTreeMap.contains_key dir m)) [
      | inl c ↦ rw (insert_entry, r, q, c) n
      | inr c ↦ rw (insert_entry, r, q, c) (IsNamed-insert dir (directory_entry dir) m refl n)
    ]
    | inl s ↦ elim (Bool-cases (is_empty rel)) [
      | inl y ↦ rw (insert_entry, r, s, y) n
      | inr y ↦ rw (insert_entry, r, s, y) (IsNamed-insert rel (direct_entry rel e) m refl n)
    ]
  ]
]

IsNamed-list_loop :
    (prefix : Text) (manifest : List ManifestEntry) (m : BTreeMap Text ManifestDirEntry)
    → IsNamed m
    → IsNamed (list_loop prefix manifest m)
unfolding list_loop
IsNamed-list_loop prefix [] m n = n
IsNamed-list_loop prefix (e ∷ es) m n =
    IsNamed-list_loop prefix es (insert_entry prefix e m) (IsNamed-insert_entry prefix e m n)

-- Whether an entry of the name is shown.
pub is_shown : Text → List ManifestDirEntry → Bool
is_shown name [] = false
is_shown name (e ∷ es) = text_eq e.name name || is_shown name es

shown-values :
    (name : Text) (m : BTreeMap Text ManifestDirEntry)
    → IsNamed m
    → is_shown name (values m) ≡ BTreeMap.contains_key name m
unfolding is_shown values IsNamed BTreeMap.contains_key BTreeMap.get
shown-values name [] n = refl
shown-values name ((k, e) ∷ m) (q, n) = rw (q) (ground (arith, shown-values name m n))

found-entries :
    (d : StoreDaemon) (store_path_name subpath : Text) (manifest : List ManifestEntry)
    (entries : List ManifestDirEntry)
    → BTreeMap.get store_path_name d.manifests ≡ some manifest
    → list_from_manifest d store_path_name subpath ≡ some entries
    → entries ≡ values (list_loop (prefix_of subpath) manifest [])
unfolding list_from_manifest
found-entries d store_path_name subpath manifest entries g e = ground arith

-- The listing of a directory by a loaded manifest shows exactly the names that some entry of the
-- manifest has behind the path of the directory, at its end or in front of a slash.
pub list_from_manifest_exact :
    (d : StoreDaemon) (store_path_name subpath name : Text) (manifest : List ManifestEntry)
    (entries : List ManifestDirEntry)
    → BTreeMap.get store_path_name d.manifests ≡ some manifest
    → list_from_manifest d store_path_name subpath ≡ some entries
    → is_shown name entries ≡ any_entry (is_child (prefix_of subpath) name) manifest
unfolding list_from_manifest BTreeMap.contains_key BTreeMap.get IsNamed
list_from_manifest_exact d store_path_name subpath name manifest entries g e =
    ap (is_shown name) (found-entries d store_path_name subpath manifest entries g e)
    ∙ shown-values name (list_loop (prefix_of subpath) manifest [])
        (IsNamed-list_loop (prefix_of subpath) manifest [] tt)
    ∙ contains-list_loop (prefix_of subpath) name manifest []
    ∙ ground arith
