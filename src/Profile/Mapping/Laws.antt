-- ===== src/Profile/Mapping/Laws.antt =====
-- Adding, removing and looking up packages.
use nix_redox.Base.{
  ℕ, ◌≤◌, Text, true, false, none, some, List, [], ◌∷◌, ◌++◌, length, ltb, if◌then◌else◌, ◌≡◌, refl,
  ap, ◌∙◌, arith, Bool-cases, inl, inr,
}
use nix_redox.Base.Strings.{text_key, text_eq, text_eq_iff}
use nix_redox.Profile.Mapping.{
  ProfileEntry, ProfileMapping, retain_other, add, remove, find_package, get,
}

-- `get` after `add`: the new entry for its own name, and what was there for every other name.
pub get-add :
    (m : ProfileMapping) (name store_path j : Text) (now : ℕ)
    → get (add m name store_path now) j ≡ (
        if text_eq name j
        then some (record { name = name; store_path = store_path; installed_at = now })
        else get m j)
unfolding get add
get-add m name store_path j now = loop m.packages
  where
    loop :
        (ps : List ProfileEntry)
        → find_package j (
            retain_other name ps
            ++ (record { name = name; store_path = store_path; installed_at = now } ∷ []))
          ≡ (if text_eq name j
              then some (record { name = name; store_path = store_path; installed_at = now })
              else find_package j ps)
    loop [] = refl
    loop (p ∷ ps) =
        ground (arith, text_eq_iff p.name name, text_eq_iff p.name j, text_eq_iff name j, loop ps)

find-retain_other :
    (name j : Text) (ps : List ProfileEntry)
    → find_package j (retain_other name ps) ≡ (if text_eq name j then none else find_package j ps)
unfolding find_package retain_other
find-retain_other name j [] = ground arith
find-retain_other name j (p ∷ ps) = ground (
  arith,
  text_eq_iff p.name name,
  text_eq_iff p.name j,
  text_eq_iff name j,
  find-retain_other name j ps,
)

-- `get` after `remove`: nothing under the removed name, and what was there under every other.
pub get-remove :
    (m : ProfileMapping) (name j : Text)
    → get (remove m name).0 j ≡ (if text_eq name j then none else get m j)
unfolding get remove
get-remove m name j = find-retain_other name j m.packages

length-retain_other :
    (name : Text) (ps : List ProfileEntry) → length (retain_other name ps) ≤ length ps
unfolding retain_other
length-retain_other name [] = omega arith
length-retain_other name (p ∷ ps) = ground (arith, length-retain_other name ps)

removed_exact :
    (name : Text) (ps : List ProfileEntry)
    → ltb (length (retain_other name ps)) (length ps)
      ≡ elim (find_package name ps) [ none ↦ false | some p ↦ true ]
unfolding retain_other find_package
removed_exact name [] = refl
removed_exact name (p ∷ ps) = ground (arith, length-retain_other name ps, removed_exact name ps)

-- `remove` answers true exactly if the package was there.
pub remove-found :
    (m : ProfileMapping) (name : Text)
    → (remove m name).1 ≡ elim (get m name) [ none ↦ false | some p ↦ true ]
unfolding remove get
remove-found m name = removed_exact name m.packages

-- No two packages of a profile share a name.
abbrev pub AreUnique : List ProfileEntry → Type 0
AreUnique [] = Unit
AreUnique (p ∷ ps) = (find_package p.name ps ≡ none) × AreUnique ps

AreUnique-retain_other :
    (name : Text) (ps : List ProfileEntry) → AreUnique ps → AreUnique (retain_other name ps)
unfolding retain_other
AreUnique-retain_other name [] h = tt
AreUnique-retain_other name (p ∷ ps) (n, h) = elim (Bool-cases (text_eq p.name name)) [
  | inl e ↦ rw e (AreUnique-retain_other name ps h)
  | inr d ↦
      rw d (ground (arith, find-retain_other name p.name ps), AreUnique-retain_other name ps h)
]

find-snoc :
    (j : Text) (ps : List ProfileEntry) (p : ProfileEntry)
    → find_package j ps ≡ none
    → find_package j (ps ++ (p ∷ [])) ≡ (if text_eq p.name j then some p else none)
unfolding find_package
find-snoc j [] p e = refl
find-snoc j (q ∷ ps) p e = ground (arith, find-snoc j ps p)

AreUnique-snoc :
    (ps : List ProfileEntry) (p : ProfileEntry)
    → AreUnique ps
    → find_package p.name ps ≡ none
    → AreUnique (ps ++ (p ∷ []))
AreUnique-snoc [] p h n = (unfold find_package in refl, tt)
AreUnique-snoc (q ∷ ps) p (d, h) n = (
  find-snoc q.name ps p d
      ∙ (unfold find_package in
          ground (arith, text_eq_iff p.name q.name, text_eq_iff q.name p.name)),
  AreUnique-snoc ps p h (unfold find_package in ground arith),
)

-- Adding and removing keep the names of a profile's packages apart.
pub add-AreUnique :
    (m : ProfileMapping) (name store_path : Text) (now : ℕ)
    → AreUnique m.packages
    → AreUnique (add m name store_path now).packages
unfolding add
add-AreUnique m name store_path now h =
    AreUnique-snoc (retain_other name m.packages) _ (AreUnique-retain_other name m.packages h)
      (ground (arith, find-retain_other name name m.packages, text_eq_iff name name))

pub remove-AreUnique :
    (m : ProfileMapping) (name : Text) → AreUnique m.packages → AreUnique (remove m name).0.packages
unfolding remove
remove-AreUnique m name h = AreUnique-retain_other name m.packages h

unchanged :
    (name : Text) (ps : List ProfileEntry) → find_package name ps ≡ none → retain_other name ps ≡ ps
unfolding find_package retain_other
unchanged name [] n = refl
unchanged name (p ∷ ps) n = elim (Bool-cases (text_eq p.name name)) [
  | inl e ↦ absurd (ground arith)
  | inr d ↦ rw d (ap (λ x. p ∷ x) (unchanged name ps (rw d at n)))
]

-- Removing a package that is not there changes nothing.
pub remove_unchanged :
    (m : ProfileMapping) (name : Text) → get m name ≡ none → (remove m name).0 ≡ m
unfolding remove get
remove_unchanged m name n =
    ap (λ ps. record { version = m.version; packages = ps }) (unchanged name m.packages n)
