-- ===== src/System/Deletion/Unscanned.antt =====
-- What a scan finds when the directory of a generation has been removed.
use nix_redox.Base.{
  ℕ, ◌^◌, ◌==◌, ==_iff, Text, Bool, false, ◌||◌, Option, none, some, List, [], ◌∷◌, ◌≡◌, refl, sym,
  ap, ◌∙◌, arith, Bool-cases, Option-cases, inl, inr,
}
use nix_redox.Base.Strings.{text_key, text_eq, text_eq_iff, nat_key}
use nix_redox.Base.BTreeMap
use nix_redox.Base.BTreeMap.{BTreeMap}
use nix_redox.Base.BTreeSet
use nix_redox.Base.Decimal.{to_decimal, parse_unsigned}
use nix_redox.System.{
  ManifestFile, missing, invalid, parsed, Generation, insert_by_id, sort_by_id, read_generations,
  scan_generations,
}
use nix_redox.System.Deletion.{gen_ids}

-- Directories that are read as the generation of an id are named by its decimal, as the program names
-- them.
unfoldable pub IsCanonical : BTreeMap Text ManifestFile → Type 0
IsCanonical [] = Unit
IsCanonical ((name, file) ∷ rest) =
    ((id : ℕ) → parse_unsigned (2 ^ 32) name ≡ some id → name ≡ to_decimal id) × IsCanonical rest

pub IsCanonical-remove :
    (k : Text) (dir : BTreeMap Text ManifestFile)
    → IsCanonical dir
    → IsCanonical (BTreeMap.remove k dir)
unfolding IsCanonical BTreeMap.remove
IsCanonical-remove k [] c = tt
IsCanonical-remove k ((name, file) ∷ rest) (h, c) = elim (Bool-cases (text_eq name k)) [
  | inl y ↦ rw (y) (IsCanonical-remove k rest c)
  | inr n ↦ rw (n) (h, IsCanonical-remove k rest c)
]

contains-insert_by_id :
    (id : ℕ) (g : Generation) (gs : List Generation)
    → BTreeSet.contains id (gen_ids (insert_by_id g gs))
      ≡ (g.id == id || BTreeSet.contains id (gen_ids gs))
unfolding insert_by_id gen_ids BTreeSet.contains
contains-insert_by_id id g [] = refl
contains-insert_by_id id g (h ∷ hs) = ground (arith, contains-insert_by_id id g hs)

contains-sort_by_id :
    (id : ℕ) (gs : List Generation)
    → BTreeSet.contains id (gen_ids (sort_by_id gs)) ≡ BTreeSet.contains id (gen_ids gs)
unfolding sort_by_id gen_ids BTreeSet.contains
contains-sort_by_id id [] = refl
contains-sort_by_id id (g ∷ gs) =
    contains-insert_by_id id g (sort_by_id gs)
    ∙ ap (λ b. g.id == id || b) (contains-sort_by_id id gs)

-- A scan finds a generation exactly if it is read from some directory.
contains-scan :
    (id : ℕ) (dir : BTreeMap Text ManifestFile)
    → BTreeSet.contains id (gen_ids (scan_generations dir))
      ≡ BTreeSet.contains id (gen_ids (read_generations dir))
unfolding scan_generations
contains-scan id dir = contains-sort_by_id id (read_generations dir)

abbrev same_id : ℕ → Option ℕ → Bool
same_id id none = false
same_id id (some k) = k == id

-- Whether an entry is read as the generation of an id.
reads : ℕ → Text → ManifestFile → Bool
reads id name missing = false
reads id name invalid = false
reads id name (parsed m) = same_id id (parse_unsigned (2 ^ 32) name)

contains-read :
    (id : ℕ) (name : Text) (file : ManifestFile) (rest : BTreeMap Text ManifestFile)
    → BTreeSet.contains id (gen_ids (read_generations ((name, file) ∷ rest)))
      ≡ (reads id name file || BTreeSet.contains id (gen_ids (read_generations rest)))
unfolding read_generations gen_ids reads BTreeSet.contains
contains-read id name missing rest = refl
contains-read id name invalid rest = refl
contains-read id name (parsed m) rest = elim (Option-cases (parse_unsigned (2 ^ 32) name)) [
  | inl p ↦ rw (reads, p) refl
  | inr (k, p) ↦ rw (reads, p) refl
]

reads_other :
    (id : ℕ) (name : Text) (file : ManifestFile)
    → ((k : ℕ) → parse_unsigned (2 ^ 32) name ≡ some k → name ≡ to_decimal k)
    → text_eq name (to_decimal id) ≡ false
    → reads id name file ≡ false
unfolding reads
reads_other id name missing h n = refl
reads_other id name invalid h n = refl
reads_other id name (parsed m) h n = elim (Option-cases (parse_unsigned (2 ^ 32) name)) [
  | inl p ↦ rw (reads, p) refl
  | inr (k, p) ↦ elim (Bool-cases (k == id)) [
    | inr d ↦ rw (reads, p) d
    | inl s ↦ absurd (
        ground
          (arith, (text_eq_iff name (to_decimal id)).1 (h k p ∙ ap to_decimal ((==_iff k id).0 s))))
  ]
]

unread-remove :
    (id : ℕ) (dir : BTreeMap Text ManifestFile)
    → IsCanonical dir
    → BTreeSet.contains id (gen_ids (read_generations (BTreeMap.remove (to_decimal id) dir)))
      ≡ false
unfolding IsCanonical BTreeMap.remove
unread-remove id [] c = unfold read_generations gen_ids BTreeSet.contains in refl
unread-remove id ((name, file) ∷ rest) (h, c) = elim (Bool-cases (text_eq name (to_decimal id))) [
  | inl y ↦ rw (y) (unread-remove id rest c)
  | inr n ↦ rw (n) (
      contains-read id name file (BTreeMap.remove (to_decimal id) rest)
      ∙ rw (reads_other id name file h n) (unread-remove id rest c))
]

unread-kept :
    (id : ℕ) (x : Text) (dir : BTreeMap Text ManifestFile)
    → BTreeSet.contains id (gen_ids (read_generations dir)) ≡ false
    → BTreeSet.contains id (gen_ids (read_generations (BTreeMap.remove x dir))) ≡ false
unfolding BTreeMap.remove
unread-kept id x [] u = u
unread-kept id x ((name, file) ∷ rest) u =
    let before : (reads id name file || BTreeSet.contains id (gen_ids (read_generations rest)))
        ≡ false =
      sym (contains-read id name file rest) ∙ u in
    let others : BTreeSet.contains id (gen_ids (read_generations (BTreeMap.remove x rest)))
        ≡ false =
      unread-kept id x rest (ground arith) in
    elim (Bool-cases (text_eq name x)) [
      | inl y ↦ rw (y) others
      | inr n ↦
          rw (n) (contains-read id name file (BTreeMap.remove x rest) ∙ rw (others) (ground arith))
    ]

-- The generation of an id is not scanned any more once the directory named by it is removed.
pub unscanned-remove :
    (id : ℕ) (dir : BTreeMap Text ManifestFile)
    → IsCanonical dir
    → BTreeSet.contains id (gen_ids (scan_generations (BTreeMap.remove (to_decimal id) dir)))
      ≡ false
unscanned-remove id dir c =
    contains-scan id (BTreeMap.remove (to_decimal id) dir) ∙ unread-remove id dir c

-- Nothing is scanned that was not before.
pub unscanned-kept :
    (id : ℕ) (x : Text) (dir : BTreeMap Text ManifestFile)
    → BTreeSet.contains id (gen_ids (scan_generations dir)) ≡ false
    → BTreeSet.contains id (gen_ids (scan_generations (BTreeMap.remove x dir))) ≡ false
unscanned-kept id x dir u =
    contains-scan id (BTreeMap.remove x dir) ∙ unread-kept id x dir (sym (contains-scan id dir) ∙ u)
