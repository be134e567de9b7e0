-- ===== src/Profile/Mapping/Union.antt =====
-- The union view of a directory.
use nix_redox.Base.{
  Text, true, Option, none, some, List, [], ◌∷◌, if◌then◌else◌, ◌≡◌, refl, ◌∙◌, arith, Bool-cases,
  inl, inr,
}
use nix_redox.Base.Strings.{text_key, text_eq, text_lt}
use nix_redox.Base.FilePath.{join}
use nix_redox.Base.BTreeMap
use nix_redox.Base.BTreeMap.{BTreeMap}
use nix_redox.Profile.Mapping.{
  ProfileEntry, ProfileMapping, UnionEntry, DirItem, Seen, insert_items, union_loop, list_union,
  into_values,
}

-- The first of two offers, if there is one.
abbrev pub or_else {ℓ} : {A : Type ℓ} → Option A → Option A → Option A
or_else none b = b
or_else (some a) b = some a

-- What a package offers under a name: the last item of its directory with the name.
pub item_offer : Text → Text → List DirItem → Option UnionEntry
item_offer owner n [] = none
item_offer owner n (i ∷ items) = or_else (item_offer owner n items) (
    if text_eq i.name n
    then some (record {
      name = i.name;
      is_dir = i.is_dir;
      is_symlink = i.is_symlink;
      from_package = owner;
    })
    else none)

-- What a profile offers under a name: the offer of the package installed last among those that
-- offer something.
pub last_offer : (Text → List DirItem) → Text → Text → List ProfileEntry → Option UnionEntry
last_offer read_dir subpath n [] = none
last_offer read_dir subpath n (p ∷ ps) =
    or_else (last_offer read_dir subpath n ps)
      (item_offer p.name n (read_dir (join p.store_path subpath)))

get-insert_items :
    (owner n : Text) (items : List DirItem) (seen : Seen)
    → BTreeMap.get n (insert_items owner items seen)
      ≡ or_else (item_offer owner n items) (BTreeMap.get n seen)
unfolding insert_items item_offer
get-insert_items owner n [] seen = refl
get-insert_items owner n (i ∷ items) seen =
    let v : UnionEntry = record {
      name = i.name;
      is_dir = i.is_dir;
      is_symlink = i.is_symlink;
      from_package = owner;
    } in
    ground (
      arith,
      get-insert_items owner n items (BTreeMap.insert i.name v seen),
      BTreeMap.get-insert i.name n v seen,
    )

get-union_loop :
    (read_dir : Text → List DirItem) (subpath n : Text) (ps : List ProfileEntry) (seen : Seen)
    → BTreeMap.get n (union_loop read_dir subpath ps seen)
      ≡ or_else (last_offer read_dir subpath n ps) (BTreeMap.get n seen)
unfolding union_loop last_offer
get-union_loop read_dir subpath n [] seen = refl
get-union_loop read_dir subpath n (p ∷ ps) seen = ground (
  arith,
  get-union_loop read_dir subpath n ps
      (insert_items p.name (read_dir (join p.store_path subpath)) seen),
  get-insert_items p.name n (read_dir (join p.store_path subpath)) seen,
)

-- A listing by name.
pub find_entry : Text → List UnionEntry → Option UnionEntry
find_entry n [] = none
find_entry n (e ∷ es) = if text_eq e.name n then some e else find_entry n es

-- Every entry is filed under its own name.
abbrev Filed : Seen → Type 0
Filed [] = Unit
Filed ((k, v) ∷ rest) = (v.name ≡ k) × Filed rest

Filed-insert :
    (k : Text) (v : UnionEntry) (seen : Seen)
    → v.name ≡ k
    → Filed seen
    → Filed (BTreeMap.insert k v seen)
unfolding BTreeMap.insert
Filed-insert k v [] e h = (e, tt)
Filed-insert k v ((j, w) ∷ seen) e (f, h) = elim (Bool-cases (text_eq j k)) [
  | inl s ↦ rw s (e, h)
  | inr d ↦ elim (Bool-cases (text_lt k j)) [
    | inl l ↦ rw (d, l) (e, (f, h))
    | inr g ↦ rw (d, g) (f, Filed-insert k v seen e h)
  ]
]

Filed-items :
    (owner : Text) (items : List DirItem) (seen : Seen)
    → Filed seen
    → Filed (insert_items owner items seen)
unfolding insert_items
Filed-items owner [] seen h = h
Filed-items owner (i ∷ items) seen h = Filed-items owner items _ (Filed-insert i.name _ seen refl h)

Filed-union :
    (read_dir : Text → List DirItem) (subpath : Text) (ps : List ProfileEntry) (seen : Seen)
    → Filed seen
    → Filed (union_loop read_dir subpath ps seen)
unfolding union_loop
Filed-union read_dir subpath [] seen h = h
Filed-union read_dir subpath (p ∷ ps) seen h =
    Filed-union read_dir subpath ps
      (insert_items p.name (read_dir (join p.store_path subpath)) seen)
      (Filed-items p.name (read_dir (join p.store_path subpath)) seen h)

find-into_values :
    (n : Text) (seen : Seen) → Filed seen → find_entry n (into_values seen) ≡ BTreeMap.get n seen
unfolding find_entry BTreeMap.get
find-into_values n [] h = refl
find-into_values n ((k, v) ∷ rest) (e, h) = rw e (rw (find-into_values n rest h))

-- The union listing of a directory holds a name exactly if some package offers it, and then with
-- the kind and the package of the one installed last.
pub list_union_last_wins :
    (read_dir : Text → List DirItem) (m : ProfileMapping) (subpath n : Text)
    → find_entry n (list_union read_dir m subpath) ≡ last_offer read_dir subpath n m.packages
unfolding list_union
list_union_last_wins read_dir m subpath n =
    find-into_values n (union_loop read_dir subpath m.packages [])
      (Filed-union read_dir subpath m.packages [] tt)
    ∙ get-union_loop read_dir subpath n m.packages []
    ∙ (unfold BTreeMap.get in or_else-none (last_offer read_dir subpath n m.packages))
  where
    or_else-none : (o : Option UnionEntry) → or_else o none ≡ o
    or_else-none none = refl
    or_else-none (some e) = refl

IsOrdered-items :
    (owner : Text) (items : List DirItem) (seen : Seen)
    → BTreeMap.IsOrdered seen
    → BTreeMap.IsOrdered (insert_items owner items seen)
unfolding insert_items
IsOrdered-items owner [] seen h = h
IsOrdered-items owner (i ∷ items) seen h =
    IsOrdered-items owner items _ (BTreeMap.IsOrdered-insert i.name _ seen h)

IsOrdered-union :
    (read_dir : Text → List DirItem) (subpath : Text) (ps : List ProfileEntry) (seen : Seen)
    → BTreeMap.IsOrdered seen
    → BTreeMap.IsOrdered (union_loop read_dir subpath ps seen)
unfolding union_loop
IsOrdered-union read_dir subpath [] seen h = h
IsOrdered-union read_dir subpath (p ∷ ps) seen h =
    IsOrdered-union read_dir subpath ps
      (insert_items p.name (read_dir (join p.store_path subpath)) seen)
      (IsOrdered-items p.name (read_dir (join p.store_path subpath)) seen h)

-- Names grow strictly from entry to entry.
abbrev pub NameAbove : Text → List UnionEntry → Type 0
NameAbove n [] = Unit
NameAbove n (e ∷ es) = (text_lt n e.name ≡ true) × NameAbove n es

abbrev pub IsSorted : List UnionEntry → Type 0
IsSorted [] = Unit
IsSorted (e ∷ es) = NameAbove e.name es × IsSorted es

NameAbove-values :
    (k : Text) (seen : Seen) → Filed seen → BTreeMap.Above k seen → NameAbove k (into_values seen)
NameAbove-values k [] f h = tt
NameAbove-values k ((j, v) ∷ rest) (e, f) (l, h) = (rw e l, NameAbove-values k rest f h)

IsSorted-values : (seen : Seen) → Filed seen → BTreeMap.IsOrdered seen → IsSorted (into_values seen)
IsSorted-values [] f h = tt
IsSorted-values ((k, v) ∷ rest) (e, f) (a, h) =
    (rw e (NameAbove-values k rest f a), IsSorted-values rest f h)

-- The listing is in strict order of the names: sorted, with no name twice.
pub list_union-IsSorted :
    (read_dir : Text → List DirItem) (m : ProfileMapping) (subpath : Text)
    → IsSorted (list_union read_dir m subpath)
unfolding list_union
list_union-IsSorted read_dir m subpath =
    IsSorted-values (union_loop read_dir subpath m.packages [])
      (Filed-union read_dir subpath m.packages [] tt)
      (IsOrdered-union read_dir subpath m.packages [] tt)
