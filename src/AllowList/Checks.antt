-- ===== src/AllowList/Checks.antt =====
-- What `check` decides, and what a derivation can and cannot put on its list.
use nix_redox.Base.{
  true, false, List, [], ◌∷◌, ◌++◌, ◌≡◌, ◌↔◌, ◌⊎◌, refl, sym, ap, ◌∙◌, arith, Bool-cases, inl, inr,
}
use nix_redox.AllowList.{
  FilePath, denied, read_only, read_write, AllowList, clean_path, path_matches_prefix, some_match,
  check,
}
use nix_redox.AllowList.{}
use nix_redox.AllowList.Cleaning.{path_matches_prefix_exact}

abbrev pub In : FilePath → List FilePath → Type 0
In e [] = ⊥
In e (x ∷ xs) = (x ≡ e) ⊎ In e xs

-- Some entry is a prefix of the path, once the path's dots are resolved.
pub record Covered (entries : List FilePath) (path : FilePath) : Type 0 where
  pub entry : FilePath
  pub listed : In entry entries
  pub rest : FilePath
  pub below : clean_path path ≡ entry ++ rest

some_match→Covered :
    (path : FilePath) (es : List FilePath) → some_match path es ≡ true → Covered es path
some_match→Covered path [] h = absurd (unfold some_match in ground arith)
some_match→Covered path (e ∷ es) h =
    first (Bool-cases (path_matches_prefix path e)) (some_match→Covered path es)
  where
    first :
        (path_matches_prefix path e ≡ true) ⊎ (path_matches_prefix path e ≡ false)
        → (some_match path es ≡ true → Covered es path)
        → Covered (e ∷ es) path
    first (inl m) later =
        let (rest, b) = (path_matches_prefix_exact path e).0 m in
        record { entry = e; listed = inl refl; rest = rest; below = b }
    first (inr n) later =
        let c = later (unfold some_match in ground arith) in
        record { entry = c.entry; listed = inr c.listed; rest = c.rest; below = c.below }

Covered→some_match :
    (path : FilePath) (es : List FilePath) (e rest : FilePath)
    → In e es
    → clean_path path ≡ e ++ rest
    → some_match path es ≡ true
unfolding some_match
Covered→some_match path [] e rest i b = absurd i
Covered→some_match path (x ∷ xs) e rest (inl h) b =
    let m : path_matches_prefix path x ≡ true =
      (path_matches_prefix_exact path x).1 (rest, b ∙ ap (λ y. y ++ rest) (sym h)) in
    rw m
Covered→some_match path (x ∷ xs) e rest (inr i) b =
    ground (arith, Covered→some_match path xs e rest i b)

pub some_match_exact :
    (path : FilePath) (es : List FilePath) → (some_match path es ≡ true) ↔ Covered es path
some_match_exact path es =
    (some_match→Covered path es, λ c. Covered→some_match path es c.entry c.rest c.listed c.below)

-- The verdict on a path: write access exactly below a read-write entry, read access exactly below a
-- read-only entry and no read-write entry, and none otherwise.
pub check_exact :
    (list : AllowList) (path : FilePath)
    → ((check list path ≡ read_write) ↔ Covered list.read_write_paths path)
      × ((check list path ≡ read_only)
          ↔ ((¬ Covered list.read_write_paths path) × Covered list.read_only_paths path))
      × ((check list path ≡ denied)
          ↔ ((¬ Covered list.read_write_paths path) × (¬ Covered list.read_only_paths path)))
unfolding check
check_exact list path =
    let w = some_match_exact path list.read_write_paths in
    let r = some_match_exact path list.read_only_paths in
    (
      (λ h. w.0 (ground arith), λ c. ground (arith, w.1 c)),
      (
        λ h. (λ c. absurd (ground (arith, w.1 c)), r.0 (ground arith)),
        λ (n, c).
            ground (arith, λ (m : some_match path list.read_write_paths ≡ true). n (w.0 m), r.1 c),
      ),
      (
        λ h. (λ c. absurd (ground (arith, w.1 c)), λ c. absurd (ground (arith, r.1 c))),
        λ (n, k). ground (
          arith,
          λ (m : some_match path list.read_write_paths ≡ true). n (w.0 m),
          λ (m : some_match path list.read_only_paths ≡ true). k (r.0 m),
        ),
      ),
    )

-- The order in which the hash sets are walked does not matter.
pub check_order :
    (list list' : AllowList) (path : FilePath)
    → ((e : FilePath) → In e list.read_write_paths ↔ In e list'.read_write_paths)
    → ((e : FilePath) → In e list.read_only_paths ↔ In e list'.read_only_paths)
    → check list path ≡ check list' path
check_order list list' path hw hr =
    unfold check in
    ground (
      arith,
      same list.read_write_paths list'.read_write_paths hw,
      same list.read_only_paths list'.read_only_paths hr,
    )
  where
    same :
        (es fs : List FilePath)
        → ((e : FilePath) → In e es ↔ In e fs)
        → some_match path es ≡ some_match path fs
    same es fs h = elim (Bool-cases (some_match path es)) [
      | inl m ↦
          let c = some_match→Covered path es m in
          m ∙ sym (Covered→some_match path fs c.entry c.rest ((h c.entry).0 c.listed) c.below)
      | inr n ↦ elim (Bool-cases (some_match path fs)) [
        | inr k ↦ n ∙ sym k
        | inl m ↦
            let c = some_match→Covered path fs m in
            absurd (
              ground
                (arith, Covered→some_match path es c.entry c.rest ((h c.entry).1 c.listed) c.below))
      ]
    ]
