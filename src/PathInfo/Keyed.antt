-- ===== src/PathInfo/Keyed.antt =====
-- Well-formed databases: one file for each hash, and metadata stored under the hash of its path.
use nix_redox.Base.{Text, true, Option, some, List, [], ◌∷◌, ◌≡◌, subst, sym, ◌∙◌, arith}
use nix_redox.Base.{ok, Bool-cases, Option-cases, Result-cases, inl, inr}
use nix_redox.Base.Strings.{text_key, text_eq, text_lt, text_eq_iff}
use nix_redox.Base.BTreeMap
use nix_redox.Base.BTreeMap.{BTreeMap}
use nix_redox.Base.BTreeSet
use nix_redox.PathInfo.{PathInfo, InfoFile, valid, garbled, unreadable, PathInfoDb}
use nix_redox.PathInfo.{collect_paths, register, delete, list_paths, all_paths_set}

module _ (digest : Text → Option Text) where
  -- Metadata in a file is metadata of a path with the file's hash.
  abbrev pub IsNamed : Text → InfoFile → Type 0
  IsNamed hash (valid info) = digest info.store_path ≡ some hash
  IsNamed hash garbled = Unit
  IsNamed hash unreadable = Unit

  abbrev pub AreNamed : BTreeMap Text InfoFile → Type 0
  AreNamed [] = Unit
  AreNamed ((hash, file) ∷ rest) = IsNamed hash file × AreNamed rest

  pub record IsKeyed (db : PathInfoDb) : Type 0 where
    pub ordered : BTreeMap.IsOrdered db.stored
    pub named : AreNamed db.stored

  AreNamed-insert :
      (hash : Text) (file : InfoFile) (m : BTreeMap Text InfoFile)
      → IsNamed hash file
      → AreNamed m
      → AreNamed (BTreeMap.insert hash file m)
  unfolding BTreeMap.insert
  AreNamed-insert hash file [] n k = (n, tt)
  AreNamed-insert hash file ((j, f) ∷ m) n (b, k) = elim (Bool-cases (text_eq j hash)) [
    | inl e ↦ rw e (n, k)
    | inr d ↦ elim (Bool-cases (text_lt hash j)) [
      | inl l ↦ rw (d, l) (n, (b, k))
      | inr g ↦ rw (d, g) (b, AreNamed-insert hash file m n k)
    ]
  ]

  AreNamed-remove :
      (hash : Text) (m : BTreeMap Text InfoFile) → AreNamed m → AreNamed (BTreeMap.remove hash m)
  unfolding BTreeMap.remove
  AreNamed-remove hash [] k = tt
  AreNamed-remove hash ((j, f) ∷ m) (b, k) = elim (Bool-cases (text_eq j hash)) [
    | inl e ↦ rw e (AreNamed-remove hash m k)
    | inr d ↦ rw d (b, AreNamed-remove hash m k)
  ]

  -- A registration keeps the database well-formed.
  pub register-IsKeyed :
      (db db' : PathInfoDb) (info : PathInfo)
      → IsKeyed db
      → register digest db info ≡ ok db'
      → IsKeyed db'
  unfolding register
  register-IsKeyed db db' info k e = elim (Option-cases (digest info.store_path)) [
    | inl n ↦ absurd (ground arith)
    | inr (hash, h) ↦
        subst IsKeyed {x = record db { stored = BTreeMap.insert hash (valid info) db.stored }}
          (ground arith)
          (record {
            ordered = BTreeMap.IsOrdered-insert hash (valid info) db.stored k.ordered;
            named = AreNamed-insert hash (valid info) db.stored h k.named;
          })
  ]

  -- A deletion keeps the database well-formed.
  pub delete-IsKeyed :
      (db db' : PathInfoDb) (path : Text)
      → IsKeyed db
      → delete digest db path ≡ ok db'
      → IsKeyed db'
  unfolding delete
  delete-IsKeyed db db' path k e = elim (Option-cases (digest path)) [
    | inl n ↦ absurd (ground arith)
    | inr (hash, h) ↦ elim (Bool-cases (BTreeMap.contains_key hash db.stored)) [
      | inl there ↦
          subst IsKeyed {x = record db { stored = BTreeMap.remove hash db.stored }} (ground arith)
            (record {
              ordered = BTreeMap.IsOrdered-remove hash db.stored k.ordered;
              named = AreNamed-remove hash db.stored k.named;
            })
      | inr missing ↦ subst IsKeyed (ground arith) k
    ]
  ]

  -- A stored path: its metadata lies in the file of its hash.
  abbrev pub IsStored : BTreeMap Text InfoFile → Text → Type 0
  IsStored m p =
      (hash : Text) × (info : PathInfo) × (BTreeMap.get hash m ≡ some (valid info))
      × (info.store_path ≡ p)
      × (digest p ≡ some hash)

  IsStored-cons :
      (j p : Text) (f : InfoFile) (m : BTreeMap Text InfoFile)
      → BTreeMap.Above j m
      → IsStored m p
      → IsStored ((j, f) ∷ m) p
  unfolding BTreeMap.get
  IsStored-cons j p f m a (hash, info, g, e, d) =
      (hash, info, ground (arith, text_eq_iff j hash, BTreeMap.get-Above j m a), e, d)

  collect_paths-IsStored :
      (m : BTreeMap Text InfoFile) (paths : List Text) (p : Text)
      → BTreeMap.IsOrdered m
      → AreNamed m
      → collect_paths m ≡ ok paths
      → BTreeSet.contains p paths ≡ true
      → IsStored m p
  unfolding collect_paths
  collect_paths-IsStored [] paths p k n e c = absurd (unfold BTreeSet.contains in ground arith)
  collect_paths-IsStored ((j, valid i) ∷ m) paths p (a, k) (b, n) e c =
      elim (Result-cases (collect_paths m)) [
        | inr (x, r) ↦ absurd (ground arith)
        | inl (rest, r) ↦
            elim (BTreeSet.cons-cases i.store_path p rest
              (subst (λ s. BTreeSet.contains p s ≡ true) (ground arith) c)) [
                | inl h ↦
                    (j, i, unfold BTreeMap.get in ground (arith, text_eq_iff j j), h, rw (← h) b)
                | inr h ↦ IsStored-cons j p (valid i) m a (collect_paths-IsStored m rest p k n r h)
              ]
      ]
  collect_paths-IsStored ((j, garbled) ∷ m) paths p (a, k) (b, n) e c =
      IsStored-cons j p garbled m a (collect_paths-IsStored m paths p k n e c)
  collect_paths-IsStored ((j, unreadable) ∷ m) paths p k n e c = absurd (ground arith)

  contains-all_paths_set :
      (db : PathInfoDb) (all paths : List Text) (p : Text)
      → collect_paths db.stored ≡ ok paths
      → all_paths_set db ≡ ok all
      → BTreeSet.contains p all ≡ BTreeSet.contains p paths
  unfolding all_paths_set list_paths
  contains-all_paths_set db all paths p c e =
      let same : BTreeSet.extend [] (BTreeSet.sort paths) ≡ all = ground arith in
      rw (← same) (
        unfold BTreeSet.contains in
        (BTreeSet.contains-extend p [] (BTreeSet.sort paths) ∙ BTreeSet.contains-sort p paths))

  -- In a well-formed database the listing names only paths whose metadata lies in the file of
  -- their hash.
  pub all_paths_set-IsStored :
      (db : PathInfoDb) (all : List Text) (p : Text)
      → IsKeyed db
      → all_paths_set db ≡ ok all
      → BTreeSet.contains p all ≡ true
      → IsStored db.stored p
  all_paths_set-IsStored db all p k e c = elim (Result-cases (collect_paths db.stored)) [
    | inr (x, r) ↦ absurd (unfold all_paths_set list_paths in ground arith)
    | inl (paths, r) ↦
        collect_paths-IsStored db.stored paths p k.ordered k.named r
          (sym (contains-all_paths_set db all paths p r e) ∙ c)
  ]
