-- ===== src/Profile/Persistence/Durability.antt =====
-- What is on disk is what is in memory, and stays so when a package is added.
use nix_redox.Base.{
  ℕ, Text, true, false, Option, none, some, Result, ok, if◌then◌else◌, ◌≡◌, refl, sym, ap, ◌∙◌,
  subst, arith, Bool-cases, Option-cases, inl, inr,
}
use nix_redox.Base.Strings.{text_key, text_eq, text_eq_iff}
use nix_redox.Base.BTreeMap
use nix_redox.Base.BTreeMap.{BTreeMap}
use nix_redox.Profile.Mapping
use nix_redox.Profile.Mapping.{ProfileMapping}
use nix_redox.Profile.Mapping.Laws.{get-add}
use nix_redox.Profile.Persistence.{
  is_dir_name, write_joined, ProfilesDir, parsed, ProfileDir, ProfileStore, ProfileError, load_dir,
  write_mapping, persist, get_or_create, set_profile, add_package,
}

-- What a restart makes of the directory of a name.
abbrev pub loaded_as : ℕ → Text → Option ProfileDir → Result ProfileError (Option ProfileMapping)
loaded_as now name none = ok none
loaded_as now name (some d) = load_dir now name d

-- Every name is loaded, whenever it is, as what memory holds under it, and the listed directories have
-- names that `read_dir` can list. The profiles directory has no other entries.
pub record IsSynced (s : ProfileStore) : Type 0 where
  pub ordered : BTreeMap.IsOrdered s.disk.dirs
  pub no_others : (j : Text) → s.disk.others j ≡ false
  pub plain : (j : Text) → is_dir_name j ≡ false → BTreeMap.get j s.disk.dirs ≡ none
  pub same :
      (now : ℕ) (j : Text)
      → loaded_as now j (BTreeMap.get j s.disk.dirs) ≡ ok (BTreeMap.get j s.profiles)

pub loaded-write_mapping :
    (now : ℕ) (name j : Text) (m : ProfileMapping) (dirs : BTreeMap Text ProfileDir)
    → loaded_as now j (BTreeMap.get j (write_mapping name m dirs))
      ≡ (if text_eq name j then ok (some m) else loaded_as now j (BTreeMap.get j dirs))
unfolding write_mapping load_dir
loaded-write_mapping now name j m dirs = elim (Option-cases (BTreeMap.get name dirs)) [
  | inl n ↦
      rw (n, write_mapping) ground
        (
          arith,
          BTreeMap.get-insert name j
              (record { mapping_json = some (parsed m); manifest_json = none }) dirs,
        )
  | inr (d, e) ↦
      rw (e, write_mapping) ground
        (arith, BTreeMap.get-insert name j (record d { mapping_json = some (parsed m) }) dirs)
]

written :
    (name : Text) (m : ProfileMapping) (disk : ProfilesDir)
    → is_dir_name name ≡ true
    → disk.others name ≡ false
    → disk.writable ≡ true
    → write_joined name m disk ≡ ok (record disk { dirs = write_mapping name m disk.dirs })
unfolding write_joined
written name m disk p o w = rw (p, o, w) refl

none_not_some :
    {x : Option ProfileMapping} {m : ProfileMapping}
    → ◌≡◌ {A = Result ProfileError (Option ProfileMapping)} (ok none) (ok x)
    → x ≡ some m
    → ⊥
none_not_some e f = ground arith

pub persist_step :
    (s : ProfileStore) (name : Text) (m : ProfileMapping)
    → BTreeMap.get name s.profiles ≡ some m
    → is_dir_name name ≡ true
    → s.disk.others name ≡ false
    → s.disk.writable ≡ true
    → persist s name
      ≡ (ok tt, record s { disk = record s.disk { dirs = write_mapping name m s.disk.dirs } })
unfolding persist
persist_step s name m e p o w = rw (e, persist, written name m s.disk p o w) refl

-- What memory holds agrees with the disk, so it has a plain name.
pub IsSynced-plain :
    (s : ProfileStore) (name : Text) (m : ProfileMapping)
    → IsSynced s
    → BTreeMap.get name s.profiles ≡ some m
    → is_dir_name name ≡ true
IsSynced-plain s name m h e = elim (Bool-cases (is_dir_name name)) [
  | inl p ↦ p
  | inr n ↦ absurd (none_not_some (sym (ap (loaded_as 0 name) (h.plain name n)) ∙ h.same 0 name) e)
]

-- The directory of a plain name is no other's.
pub plain-write_mapping :
    (s : ProfileStore) (name j : Text) (m : ProfileMapping)
    → IsSynced s
    → is_dir_name name ≡ true
    → is_dir_name j ≡ false
    → BTreeMap.get j (write_mapping name m s.disk.dirs) ≡ none
unfolding write_mapping
plain-write_mapping s name j m h p n = elim (Bool-cases (text_eq name j)) [
  | inl t ↦ absurd (ground (arith, ap is_dir_name ((text_eq_iff name j).0 t)))
  | inr o ↦ elim (Option-cases (BTreeMap.get name s.disk.dirs)) [
    | inl x ↦ rw (x, write_mapping, BTreeMap.get-insert name j, o) (h.plain j n)
    | inr (d, x) ↦ rw (x, write_mapping, BTreeMap.get-insert name j, o) (h.plain j n)
  ]
]

pub IsOrdered-write_mapping :
    (name : Text) (m : ProfileMapping) (dirs : BTreeMap Text ProfileDir)
    → BTreeMap.IsOrdered dirs
    → BTreeMap.IsOrdered (write_mapping name m dirs)
unfolding write_mapping
IsOrdered-write_mapping name m dirs o = elim (Option-cases (BTreeMap.get name dirs)) [
  | inl n ↦ rw (n, write_mapping) (BTreeMap.IsOrdered-insert name _ dirs o)
  | inr (d, e) ↦ rw (e, write_mapping) (BTreeMap.IsOrdered-insert name _ dirs o)
]

pub set_profile-get :
    (name : Text) (m : ProfileMapping) (s : ProfileStore)
    → BTreeMap.get name (set_profile name m s).profiles ≡ some m
set_profile-get name m s =
    ground (arith, BTreeMap.get-insert name name m s.profiles, text_eq_iff name name)

synced_at :
    (now : ℕ) (name j : Text) (m : ProfileMapping) (s : ProfileStore)
    → IsSynced s
    → loaded_as now j (BTreeMap.get j (write_mapping name m s.disk.dirs))
      ≡ ok (BTreeMap.get j (BTreeMap.insert name m s.profiles))
synced_at now name j m s h = elim (Bool-cases (text_eq name j)) [
  | inl e ↦
      rw (loaded-write_mapping now name j m s.disk.dirs, BTreeMap.get-insert name j m s.profiles, e)
        refl
  | inr n ↦
      rw (loaded-write_mapping now name j m s.disk.dirs, BTreeMap.get-insert name j m s.profiles, n)
        (h.same now j)
]

-- For a plain name, where the directory can be written, setting a profile and persisting it succeeds, memory then
-- has it, and memory and disk still agree on every profile.
pub persist-IsSynced :
    (s : ProfileStore) (name : Text) (m : ProfileMapping)
    → IsSynced s
    → is_dir_name name ≡ true
    → s.disk.writable ≡ true
    → ((persist (set_profile name m s) name).0 ≡ ok tt)
      × (IsSynced (persist (set_profile name m s) name).1
          × ((persist (set_profile name m s) name).1.profiles ≡ BTreeMap.insert name m s.profiles))
persist-IsSynced s name m h p w =
    rw
      (persist_step (set_profile name m s) name m (set_profile-get name m s) p (h.no_others name) w)
      (
        refl,
        (
          record {
            ordered = IsOrdered-write_mapping name m s.disk.dirs h.ordered;
            no_others = h.no_others;
            plain = λ j n. plain-write_mapping s name j m h p n;
            same = λ now j. synced_at now name j m s h;
          },
          refl,
        ),
      )

pub get_or_create-of :
    (t : ProfileStore) (profile : Text) (m : ProfileMapping)
    → BTreeMap.get profile t.profiles ≡ some m
    → get_or_create t profile ≡ m
unfolding get_or_create
get_or_create-of t profile m e = rw (e, get_or_create) refl

-- For a profile with a plain name, where the directory can be written, `add_package` succeeds; afterwards memory and disk agree on
-- every profile, and a lookup of a package in the profile gives the new entry for the added name and what
-- it gave before for every other.
pub add_package-IsSynced :
    (s : ProfileStore) (profile name store_path j : Text) (now : ℕ)
    → IsSynced s
    → is_dir_name profile ≡ true
    → s.disk.writable ≡ true
    → ((add_package s profile name store_path now).0 ≡ ok tt)
      × (IsSynced (add_package s profile name store_path now).1
          × (Mapping.get (get_or_create (add_package s profile name store_path now).1 profile) j ≡ (
              if text_eq name j
              then some (record { name = name; store_path = store_path; installed_at = now })
              else Mapping.get (get_or_create s profile) j)))
unfolding add_package
add_package-IsSynced s profile name store_path j now h p w =
    let m = Mapping.add (get_or_create s profile) name store_path now in
    let (r, (k, e)) = persist-IsSynced s profile m h p w in
    (
      r,
      (
        k,
        subst
            (λ x. Mapping.get x j ≡ (
              if text_eq name j
              then some (record { name = name; store_path = store_path; installed_at = now })
              else Mapping.get (get_or_create s profile) j))
            (sym (
              get_or_create-of (add_package s profile name store_path now).1 profile m
                (ap (BTreeMap.get profile) e ∙ set_profile-get profile m s)))
            (get-add (get_or_create s profile) name store_path j now),
      ),
    )
