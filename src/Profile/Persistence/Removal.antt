-- ===== src/Profile/Persistence/Removal.antt =====
-- Removing a package keeps memory and disk together.
use nix_redox.Base.{
  Text, Bool, true, false, none, some, Result, ok, err, if◌then◌else◌, ◌≡◌, refl, sym, ap, ◌∙◌,
  arith, Bool-cases, Option-cases, inl, inr,
}
use nix_redox.Base.Strings.{text_key, text_eq, text_eq_iff}
use nix_redox.Base.BTreeMap
use nix_redox.Profile.Mapping
use nix_redox.Profile.Mapping.{ProfileMapping}
use nix_redox.Profile.Mapping.Laws.{get-remove, remove-found, remove_unchanged}
use nix_redox.Profile.Persistence.{
  ProfileStore, ProfileError, persist, get_or_create, set_profile, remove_package, answer,
  new_profile,
}
use nix_redox.Profile.Persistence.Durability.{
  IsSynced, IsSynced-plain, persist-IsSynced, set_profile-get, get_or_create-of,
}

pub remove_step :
    (s : ProfileStore) (profile name : Text) (m : ProfileMapping)
    → BTreeMap.get profile s.profiles ≡ some m
    → (Mapping.remove m name).1 ≡ true
    → remove_package s profile name
      ≡ answer (persist (set_profile profile (Mapping.remove m name).0 s) profile)
unfolding remove_package
remove_step s profile name m e r = rw (e, remove_package, r) refl

pub remove_idle :
    (s : ProfileStore) (profile name : Text) (m : ProfileMapping)
    → BTreeMap.get profile s.profiles ≡ some m
    → (Mapping.remove m name).1 ≡ false
    → remove_package s profile name ≡ (ok false, set_profile profile (Mapping.remove m name).0 s)
unfolding remove_package
remove_idle s profile name m e r = rw (e, remove_package, r) refl

pub remove_nothing :
    (s : ProfileStore) (profile name : Text)
    → BTreeMap.get profile s.profiles ≡ none
    → remove_package s profile name ≡ (ok false, s)
unfolding remove_package
remove_nothing s profile name e = rw (e, remove_package) refl

-- Setting a profile to what it is changes no lookup.
set_same-IsSynced :
    (s : ProfileStore) (profile : Text) (m : ProfileMapping)
    → IsSynced s
    → BTreeMap.get profile s.profiles ≡ some m
    → IsSynced (set_profile profile m s)
set_same-IsSynced s profile m h e = record {
  ordered = h.ordered;
  no_others = h.no_others;
  plain = h.plain;
  same = λ now j. h.same now j ∙ ap ok (sym (unaffected j));
}
  where
    unaffected :
        (j : Text)
        → BTreeMap.get j (BTreeMap.insert profile m s.profiles) ≡ BTreeMap.get j s.profiles
    unaffected j = elim (Bool-cases (text_eq profile j)) [
      | inl t ↦
          rw (BTreeMap.get-insert profile j m s.profiles, t)
            (sym e ∙ ap (λ x. BTreeMap.get x s.profiles) ((text_eq_iff profile j).0 t))
      | inr n ↦ rw (BTreeMap.get-insert profile j m s.profiles, n) refl
    ]

-- What a removal promises of its result, for the profile before it.
abbrev pub Removed : ProfileMapping → Text → Text → Result ProfileError Bool × ProfileStore → Type 0
Removed m profile name (r, t) =
    (r ≡ ok (Mapping.remove m name).1)
    × (IsSynced t × (get_or_create t profile ≡ (Mapping.remove m name).0))

answered :
    (r : Result ProfileError (Unit {0}) × ProfileStore) → r.0 ≡ ok tt → answer r ≡ (ok true, r.1)
answered (ok u, s) e = refl
answered (err x, s) e = absurd (ground arith)

not_there :
    (m : ProfileMapping) (name : Text)
    → (Mapping.remove m name).1 ≡ false
    → Mapping.get m name ≡ none
not_there m name r = elim (Option-cases (Mapping.get m name)) [
  | inl n ↦ n
  | inr (p, e) ↦ absurd (ground (arith, remove-found m name))
]

remove_found :
    (s : ProfileStore) (profile name : Text) (m : ProfileMapping)
    → IsSynced s
    → s.disk.writable ≡ true
    → BTreeMap.get profile s.profiles ≡ some m
    → Removed m profile name (remove_package s profile name)
remove_found s profile name m h w e = elim (Bool-cases (Mapping.remove m name).1) [
  | inl r ↦
      let (k, (i, p)) =
        persist-IsSynced s profile (Mapping.remove m name).0 h (IsSynced-plain s profile m h e) w in
      rw
        (
          remove_step s profile name m e r,
          answered (persist (set_profile profile (Mapping.remove m name).0 s) profile) k,
        )
        (
          ap ok (sym r),
          (
            i,
            get_or_create-of _ profile (Mapping.remove m name).0
                (ap (BTreeMap.get profile) p ∙ set_profile-get profile (Mapping.remove m name).0 s),
          ),
        )
  | inr r ↦ rw (remove_idle s profile name m e r) (
    ap ok (sym r),
    (
      set_same-IsSynced s profile (Mapping.remove m name).0 h
          (e ∙ ap some (sym (remove_unchanged m name (not_there m name r)))),
      get_or_create-of (set_profile profile (Mapping.remove m name).0 s) profile
          (Mapping.remove m name).0 (set_profile-get profile (Mapping.remove m name).0 s),
    ),
  )
]

pub created :
    (s : ProfileStore) (profile : Text)
    → BTreeMap.get profile s.profiles ≡ none
    → get_or_create s profile ≡ new_profile
unfolding get_or_create
created s profile n = rw (n, get_or_create) refl

nothing :
    {s : ProfileStore} (name j : Text)
    → IsSynced s
    → (◌≡◌ {A = Result ProfileError Bool}
        (ok false)
        (ok (elim (Mapping.get new_profile name) [ none ↦ false | some p ↦ true ])))
      × (IsSynced s
          × (Mapping.get new_profile j
              ≡ (if text_eq name j then none else Mapping.get new_profile j)))
unfolding Mapping.get nix_redox.Profile.Mapping.find_package
nothing name j h = (refl, (h, ground arith))

-- Where the directory can be written, `remove_package` succeeds and answers whether the package was
-- in the profile; afterwards memory and disk agree on every profile, and a lookup in the profile
-- gives nothing for the removed name and what it gave before for every other.
pub remove_package-IsSynced :
    (s : ProfileStore) (profile name j : Text)
    → IsSynced s
    → s.disk.writable ≡ true
    → ((remove_package s profile name).0
        ≡ ok (elim (Mapping.get (get_or_create s profile) name) [ none ↦ false | some p ↦ true ]))
      × (IsSynced (remove_package s profile name).1
          × (Mapping.get (get_or_create (remove_package s profile name).1 profile) j
              ≡ (if text_eq name j then none else Mapping.get (get_or_create s profile) j)))
remove_package-IsSynced s profile name j h w =
    elim (Option-cases (BTreeMap.get profile s.profiles)) [
      | inl n ↦ rw (remove_nothing s profile name n, created s profile n) (nothing name j h)
      | inr (m, e) ↦
          let (r, (i, g)) = remove_found s profile name m h w e in
          rw (g, get_or_create-of s profile m e)
            (r ∙ ap ok (remove-found m name), (i, get-remove m name j))
    ]
