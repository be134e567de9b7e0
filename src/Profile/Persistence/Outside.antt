-- ===== src/Profile/Persistence/Outside.antt =====
-- Profiles with names that `read_dir` never lists, such as `..`.
use nix_redox.Base.{
  ℕ, Text, true, false, none, some, [], ok, ◌≡◌, refl, ap, ◌∙◌, arith, Option-cases, inl, inr,
}
use nix_redox.Base.Strings.{text_key}
use nix_redox.Base.BTreeMap
use nix_redox.Profile.Mapping
use nix_redox.Profile.Mapping.{ProfileMapping}
use nix_redox.Profile.Persistence.{
  is_dir_name, parsed, write_joined, ProfilesDir, ProfileStore, persist, get_or_create, set_profile,
  add_package, load, persist_missing, keys,
}
use nix_redox.Profile.Persistence.Durability.{IsSynced, IsSynced-plain, set_profile-get}
use nix_redox.Profile.Persistence.Restart.{load_loop_total, or_else-none, persist_missing-profiles}

written_outside :
    (name : Text) (m : ProfileMapping) (disk : ProfilesDir)
    → is_dir_name name ≡ false
    → disk.writable_outside name ≡ true
    → write_joined name m disk
      ≡ ok (record disk { outside = BTreeMap.insert name (parsed m) disk.outside })
unfolding write_joined
written_outside name m disk p w = rw (p, w) refl

persist_outside :
    (s : ProfileStore) (name : Text) (m : ProfileMapping)
    → BTreeMap.get name s.profiles ≡ some m
    → is_dir_name name ≡ false
    → s.disk.writable_outside name ≡ true
    → persist s name ≡ (
      ok tt,
      record s {
        disk = record s.disk { outside = BTreeMap.insert name (parsed m) s.disk.outside };
      },
    )
unfolding persist
persist_outside s name m e p w = rw (e, persist, written_outside name m s.disk p w) refl

-- In a store that agrees with its disk no profile has such a name.
not_held :
    (s : ProfileStore) (name : Text)
    → IsSynced s
    → is_dir_name name ≡ false
    → BTreeMap.get name s.profiles ≡ none
not_held s name h p = elim (Option-cases (BTreeMap.get name s.profiles)) [
  | inl n ↦ n
  | inr (m, e) ↦ absurd (ground (arith, IsSynced-plain s name m h e))
]

-- A restart from the same listed directories finds what memory held.
loaded_again :
    (now : ℕ) (s : ProfileStore) (disk : ProfilesDir) (name : Text)
    → IsSynced s
    → disk.dirs ≡ s.disk.dirs
    → (t : ProfileStore) × ((load now disk ≡ ok t)
        × (BTreeMap.get name t.profiles ≡ BTreeMap.get name s.profiles))
unfolding load BTreeMap.get
loaded_again now s disk name h same =
    let (m, (e, g)) =
      load_loop_total now s.disk.dirs (λ j. BTreeMap.get j s.profiles) [] h.ordered (h.same now) in
    let t : ProfileStore = record { profiles = m; disk = disk } in
    (
      persist_missing (keys m) t,
      (
        rw (same, e) refl,
        ap (BTreeMap.get name) (persist_missing-profiles (keys m) t)
            ∙ (g name ∙ or_else-none (BTreeMap.get name s.profiles)),
      ),
    )

-- For a profile whose name is not that of a directory that `read_dir` can list, where its mapping can be
-- written to the place that the name leads to, `add_package` succeeds and a lookup in memory finds the
-- profile, but a restart does not.
pub add_package_lost :
    (s : ProfileStore) (profile name path : Text) (now later : ℕ)
    → IsSynced s
    → is_dir_name profile ≡ false
    → s.disk.writable_outside profile ≡ true
    → ((add_package s profile name path now).0 ≡ ok tt)
      × ((BTreeMap.get profile (add_package s profile name path now).1.profiles
            ≡ some (Mapping.add (get_or_create s profile) name path now))
          × ((t : ProfileStore) × ((load later (add_package s profile name path now).1.disk ≡ ok t)
                × (BTreeMap.get profile t.profiles ≡ none))))
unfolding add_package
add_package_lost s profile name path now later h p w =
    let m = Mapping.add (get_or_create s profile) name path now in
    let disk : ProfilesDir = record s.disk {
      outside = BTreeMap.insert profile (parsed m) s.disk.outside;
    } in
    let (t, (l, g)) = loaded_again later s disk profile h refl in
    rw (persist_outside (set_profile profile m s) profile m (set_profile-get profile m s) p w)
      (refl, (set_profile-get profile m s, (t, (l, g ∙ not_held s profile h p))))
