-- ===== src/Profile/Catalog.antt =====
-- The catalog that the profile store (profiled/mapping.rs) stands for, a table from a profile and a
-- package name to a store path, and what the package operations do to it.
use nix_redox.Base.{
  ℕ, Text, true, ◌&&◌, Option, none, some, Result, ok, err, if◌then◌else◌, ◌≡◌, refl, sym, ap, ◌∙◌,
  arith, Bool-cases, Option-cases, inl, inr,
}
use nix_redox.Base.Strings.{text_key, text_eq, text_eq_iff}
use nix_redox.Base.BTreeMap
use nix_redox.Profile.Mapping
use nix_redox.Profile.Mapping.{ProfileEntry, ProfileMapping}
use nix_redox.Profile.Mapping.Laws.{get-add, get-remove}
use nix_redox.Profile.Persistence.{
  is_dir_name, ProfileStore, ProfileError, persist, get_or_create, set_profile, add_package,
  remove_package, answer,
}
use nix_redox.Profile.Persistence.Durability.{IsSynced, add_package-IsSynced, get_or_create-of}
use nix_redox.Profile.Persistence.Removal.{
  remove_package-IsSynced, remove_step, remove_idle, remove_nothing, created,
}
use nix_redox.Profile.Persistence.Restart.{persist-profiles}

-- The abstract state.
abbrev pub Catalog : Type 0
Catalog = Text → Text → Option Text

abbrev pub update : Text → Text → Option Text → Catalog → Catalog
update profile name path c p n = if text_eq profile p && text_eq name n then path else c p n

abbrev path_of : Option ProfileEntry → Option Text
path_of none = none
path_of (some p) = some p.store_path

-- The catalog that the daemon's memory stands for.
pub catalog_of : ProfileStore → Catalog
catalog_of s profile name = path_of (Mapping.get (get_or_create s profile) name)

-- Memory and disk agree, and the disk can be written.
pub record IsSound (s : ProfileStore) : Type 0 where
  pub synced : IsSynced s
  pub writable : s.disk.writable ≡ true

-- A step keeps the invariant and does to the catalog what `f` does.
pub record Refines (s t : ProfileStore) (f : Catalog → Catalog) : Type 0 where
  pub sound : IsSound t
  pub catalog : (p n : Text) → catalog_of t p n ≡ f (catalog_of s) p n

-- What a profile set in memory means for the others.
set_get :
    (s t : ProfileStore) (profile p : Text) (m : ProfileMapping)
    → t.profiles ≡ BTreeMap.insert profile m s.profiles
    → get_or_create t p ≡ (if text_eq profile p then m else get_or_create s p)
unfolding get_or_create
set_get s t profile p m e = elim (Bool-cases (text_eq profile p)) [
  | inl y ↦ rw (e, get_or_create, BTreeMap.get-insert profile p m s.profiles, y) refl
  | inr n ↦ rw (e, get_or_create, BTreeMap.get-insert profile p m s.profiles, n) refl
]

update_by :
    (s t : ProfileStore) (profile name : Text) (m : ProfileMapping) (path : Option Text)
    → t.profiles ≡ BTreeMap.insert profile m s.profiles
    → ((n : Text)
        → path_of (Mapping.get m n) ≡ (if text_eq name n then path else catalog_of s profile n))
    → (p n : Text) → catalog_of t p n ≡ update profile name path (catalog_of s) p n
unfolding catalog_of
update_by s t profile name m path e h p n = elim (Bool-cases (text_eq profile p)) [
  | inl y ↦
      rw (set_get s t profile p m e, y)
        (h n
          ∙ ap (λ q. if text_eq name n then path else catalog_of s q n)
              ((text_eq_iff profile p).0 y))
  | inr k ↦ rw (set_get s t profile p m e, k) refl
]

path-get-add :
    (s : ProfileStore) (profile name path n : Text) (now : ℕ)
    → path_of (Mapping.get (Mapping.add (get_or_create s profile) name path now) n)
      ≡ (if text_eq name n then some path else catalog_of s profile n)
unfolding catalog_of
path-get-add s profile name path n now =
    rw (get-add (get_or_create s profile) name path n now) (ground arith)

path-get-remove :
    (s : ProfileStore) (profile name n : Text)
    → path_of (Mapping.get (Mapping.remove (get_or_create s profile) name).0 n)
      ≡ (if text_eq name n then none else catalog_of s profile n)
unfolding catalog_of
path-get-remove s profile name n = rw (get-remove (get_or_create s profile) name n) (ground arith)

persist-writable :
    (s : ProfileStore) (name : Text) → (persist s name).1.disk.writable ≡ s.disk.writable
unfolding persist
persist-writable s name = ground arith

answer-state : (r : Result ProfileError (Unit {0}) × ProfileStore) → (answer r).1 ≡ r.1
answer-state (ok u, s) = refl
answer-state (err e, s) = refl

add_package-profiles :
    (s : ProfileStore) (profile name path : Text) (now : ℕ)
    → (add_package s profile name path now).1.profiles
      ≡ BTreeMap.insert profile (Mapping.add (get_or_create s profile) name path now) s.profiles
unfolding add_package
add_package-profiles s profile name path now =
    persist-profiles (set_profile profile (Mapping.add (get_or_create s profile) name path now) s)
      profile

pub add_package-Refines :
    (s : ProfileStore) (profile name path : Text) (now : ℕ)
    → IsSound s
    → is_dir_name profile ≡ true
    → Refines s (add_package s profile name path now).1 (update profile name (some path))
unfolding add_package
add_package-Refines s profile name path now h u = record {
  sound = record {
    synced = (add_package-IsSynced s profile name path name now h.synced u h.writable).1.0;
    writable =
        persist-writable
          (set_profile profile (Mapping.add (get_or_create s profile) name path now) s) profile
        ∙ h.writable;
  };
  catalog =
      update_by s (add_package s profile name path now).1 profile name
        (Mapping.add (get_or_create s profile) name path now) (some path)
        (add_package-profiles s profile name path now)
        (λ n. path-get-add s profile name path n now);
}

-- What a removal leaves: the catalog without the package, and a directory that is as writable.
abbrev Left : ProfileStore → Text → Text → ProfileStore → Type 0
Left s profile name t =
    (t.disk.writable ≡ s.disk.writable)
    × ((p n : Text) → catalog_of t p n ≡ update profile name none (catalog_of s) p n)

nothing_left :
    (s : ProfileStore) (profile name p n : Text)
    → BTreeMap.get profile s.profiles ≡ none
    → catalog_of s p n ≡ update profile name none (catalog_of s) p n
unfolding catalog_of Mapping.get Mapping.find_package
nothing_left s profile name p n e = elim (Bool-cases (text_eq profile p)) [
  | inr k ↦ rw (k) refl
  | inl y ↦ rw (y, ← (text_eq_iff profile p).0 y, created s profile e) (ground arith)
]

found_left :
    (s t : ProfileStore) (profile name : Text) (m : ProfileMapping)
    → BTreeMap.get profile s.profiles ≡ some m
    → t.profiles ≡ BTreeMap.insert profile (Mapping.remove m name).0 s.profiles
    → (p n : Text) → catalog_of t p n ≡ update profile name none (catalog_of s) p n
found_left s t profile name m e q =
    update_by s t profile name (Mapping.remove (get_or_create s profile) name).0 none
      (q
        ∙ ap (λ x. BTreeMap.insert profile (Mapping.remove x name).0 s.profiles)
            (sym (get_or_create-of s profile m e)))
      (path-get-remove s profile name)

remove_package-Left :
    (s : ProfileStore) (profile name : Text) → Left s profile name (remove_package s profile name).1
remove_package-Left s profile name = elim (Option-cases (BTreeMap.get profile s.profiles)) [
  | inl e ↦ rw (remove_nothing s profile name e) (refl, λ p n. nothing_left s profile name p n e)
  | inr (m, e) ↦
      let t = set_profile profile (Mapping.remove m name).0 s in
      elim (Bool-cases (Mapping.remove m name).1) [
        | inl r ↦
            rw (remove_step s profile name m e r, answer-state (persist t profile))
              (
                persist-writable t profile,
                found_left s (persist t profile).1 profile name m e (persist-profiles t profile),
              )
        | inr r ↦ rw (remove_idle s profile name m e r) (refl, found_left s t profile name m e refl)
      ]
]

pub remove_package-Refines :
    (s : ProfileStore) (profile name : Text)
    → IsSound s
    → Refines s (remove_package s profile name).1 (update profile name none)
remove_package-Refines s profile name h =
    let (w, c) = remove_package-Left s profile name in
    record {
      sound = record {
        synced = (remove_package-IsSynced s profile name name h.synced h.writable).1.0;
        writable = w ∙ h.writable;
      };
      catalog = c;
    }

pub same_catalog :
    (s t : ProfileStore)
    → ((p : Text) → BTreeMap.get p t.profiles ≡ BTreeMap.get p s.profiles)
    → (p n : Text) → catalog_of t p n ≡ catalog_of s p n
unfolding catalog_of get_or_create
same_catalog s t h p n = rw (get_or_create, h p) refl
