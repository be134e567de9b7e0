-- ===== src/Profile/Persistence/Restart.antt =====
-- What a restart of the daemon loads.
use nix_redox.Base.{
  ℕ, Text, true, Option, none, some, List, [], ◌∷◌, ok, if◌then◌else◌, ◌≡◌, refl, sym, ap, ◌∙◌,
  arith, Bool-cases, Option-cases, inl, inr,
}
use nix_redox.Base.Strings.{text_key, text_eq, text_eq_iff}
use nix_redox.Base.BTreeMap
use nix_redox.Base.BTreeMap.{BTreeMap}
use nix_redox.Profile.Mapping.{ProfileMapping}
use nix_redox.Profile.Mapping.Union.{or_else}
use nix_redox.Profile.Persistence.{
  ProfileDir, ProfileStore, load_dir, insert_loaded, load_loop, write_mapping, persist, persist_new,
  persist_missing, keys, load,
}
use nix_redox.Profile.Persistence.Durability.{
  loaded_as, IsSynced, IsSynced-plain, plain-write_mapping, loaded-write_mapping, persist_step,
  IsOrdered-write_mapping,
}

get-head :
    (k : Text) (d : ProfileDir) (rest : BTreeMap Text ProfileDir)
    → BTreeMap.get k ((k, d) ∷ rest) ≡ some d
unfolding BTreeMap.get
get-head k d rest = ground (arith, text_eq_iff k k)

rest_as :
    (now : ℕ) (k j : Text) (d : ProfileDir) (rest : BTreeMap Text ProfileDir)
    (found : Text → Option ProfileMapping)
    → BTreeMap.Above k rest
    → loaded_as now j (BTreeMap.get j ((k, d) ∷ rest)) ≡ ok (found j)
    → loaded_as now j (BTreeMap.get j rest) ≡ ok (if text_eq k j then none else found j)
unfolding BTreeMap.get
rest_as now k j d rest found a h = elim (Bool-cases (text_eq k j)) [
  | inl e ↦ rw (e, sym ((text_eq_iff k j).0 e), BTreeMap.get-Above k rest a) refl
  | inr n ↦ rw (n) (rw (n) at h)
]

get-insert_loaded :
    (k j : Text) (m : Option ProfileMapping) (found : Option ProfileMapping)
    (seen : BTreeMap Text ProfileMapping)
    → (text_eq k j ≡ true → m ≡ found)
    → or_else (if text_eq k j then none else found) (BTreeMap.get j (insert_loaded k m seen))
      ≡ or_else found (BTreeMap.get j seen)
get-insert_loaded k j none found seen e = ground arith
get-insert_loaded k j (some m) found seen e = ground (arith, BTreeMap.get-insert k j m seen)

load_loop_step :
    (now : ℕ) (k : Text) (d : ProfileDir) (rest : BTreeMap Text ProfileDir)
    (found : Option ProfileMapping) (seen : BTreeMap Text ProfileMapping)
    → load_dir now k d ≡ ok found
    → load_loop now ((k, d) ∷ rest) seen ≡ load_loop now rest (insert_loaded k found seen)
unfolding load_loop
load_loop_step now k d rest found seen e = rw (e, load_loop) refl

pub load_loop_total :
    (now : ℕ) (dirs : BTreeMap Text ProfileDir) (found : Text → Option ProfileMapping)
    (seen : BTreeMap Text ProfileMapping)
    → BTreeMap.IsOrdered dirs
    → ((j : Text) → loaded_as now j (BTreeMap.get j dirs) ≡ ok (found j))
    → (m : BTreeMap Text ProfileMapping) × ((load_loop now dirs seen ≡ ok m)
        × ((j : Text) → BTreeMap.get j m ≡ or_else (found j) (BTreeMap.get j seen)))
unfolding load_loop BTreeMap.get
load_loop_total now [] found seen o h = (seen, (refl, λ j. ground (arith, h j)))
load_loop_total now ((k, d) ∷ rest) found seen (a, o) h =
    let (m, (e, g)) =
      load_loop_total now rest (λ j. if text_eq k j then none else found j)
        (insert_loaded k (found k) seen) o (λ j. rest_as now k j d rest found a (h j)) in
    (
      m,
      (
        load_loop_step now k d rest (found k) seen
              (ap (loaded_as now k) (sym (get-head k d rest)) ∙ h k)
            ∙ e,
        λ j.
            g j
            ∙ get-insert_loaded k j (found k) (found j) seen
                (λ t. ap found ((text_eq_iff k j).0 t)),
      ),
    )

pub persist-profiles : (s : ProfileStore) (name : Text) → (persist s name).1.profiles ≡ s.profiles
unfolding persist
persist-profiles s name = ground arith

persist_new-profiles :
    (name : Text) (s : ProfileStore) (d : Option ProfileDir)
    → (persist_new name s d).profiles ≡ s.profiles
persist_new-profiles name s none = persist-profiles s name
persist_new-profiles name s (some d) = ground (arith, persist-profiles s name)

pub persist_missing-profiles :
    (names : List Text) (s : ProfileStore) → (persist_missing names s).profiles ≡ s.profiles
unfolding persist_missing
persist_missing-profiles [] s = refl
persist_missing-profiles (name ∷ names) s =
    persist_missing-profiles names (persist_new name s (BTreeMap.get name s.disk.dirs))
    ∙ persist_new-profiles name s (BTreeMap.get name s.disk.dirs)

pub or_else-none : {A : Type 0} (x : Option A) → or_else x none ≡ x
or_else-none none = refl
or_else-none (some a) = refl

-- A restart of the daemon on a directory that agrees with memory succeeds, and finds under every
-- name the profile that memory held.
pub load-IsSynced :
    (now : ℕ) (s : ProfileStore)
    → IsSynced s
    → (t : ProfileStore) × ((load now s.disk ≡ ok t)
        × ((name : Text) → BTreeMap.get name t.profiles ≡ BTreeMap.get name s.profiles))
unfolding load BTreeMap.get
load-IsSynced now s h =
    let (m, (e, g)) =
      load_loop_total now s.disk.dirs (λ j. BTreeMap.get j s.profiles) [] h.ordered (h.same now) in
    (
      persist_missing (keys m) (record { profiles = m; disk = s.disk }),
      (
        rw (e) refl,
        λ name.
            ap (BTreeMap.get name)
              (persist_missing-profiles (keys m) (record { profiles = m; disk = s.disk }))
            ∙ (g name ∙ or_else-none (BTreeMap.get name s.profiles)),
      ),
    )

rewritten :
    (now : ℕ) (s : ProfileStore) (name j : Text) (m : ProfileMapping)
    → IsSynced s
    → BTreeMap.get name s.profiles ≡ some m
    → loaded_as now j (BTreeMap.get j (write_mapping name m s.disk.dirs))
      ≡ ok (BTreeMap.get j s.profiles)
rewritten now s name j m h e = elim (Bool-cases (text_eq name j)) [
  | inl t ↦
      rw (loaded-write_mapping now name j m s.disk.dirs, t)
        (ap ok (sym e ∙ ap (λ x. BTreeMap.get x s.profiles) ((text_eq_iff name j).0 t)))
  | inr n ↦ rw (loaded-write_mapping now name j m s.disk.dirs, n) (h.same now j)
]

-- Persisting any profile keeps memory and disk together, and the directory as writable as it was.
persist_any :
    (s : ProfileStore) (name : Text)
    → IsSynced s
    → s.disk.writable ≡ true
    → IsSynced (persist s name).1 × ((persist s name).1.disk.writable ≡ true)
unfolding persist
persist_any s name h w = elim (Option-cases (BTreeMap.get name s.profiles)) [
  | inl n ↦ rw (n, persist) (h, w)
  | inr (m, e) ↦ rw (persist_step s name m e (IsSynced-plain s name m h e) (h.no_others name) w) (
    record {
      ordered = IsOrdered-write_mapping name m s.disk.dirs h.ordered;
      no_others = h.no_others;
      plain = λ j n. plain-write_mapping s name j m h (IsSynced-plain s name m h e) n;
      same = λ now j. rewritten now s name j m h e;
    },
    w,
  )
]

persist_new_keeps :
    (s : ProfileStore) (name : Text) (d : Option ProfileDir)
    → IsSynced s
    → s.disk.writable ≡ true
    → IsSynced (persist_new name s d) × ((persist_new name s d).disk.writable ≡ true)
persist_new_keeps s name none h w = persist_any s name h w
persist_new_keeps s name (some d) h w = elim (Option-cases d.mapping_json) [
  | inl n ↦ rw (n) (persist_any s name h w)
  | inr (f, e) ↦ rw (e) (h, w)
]

pub persist_missing_keeps :
    (names : List Text) (s : ProfileStore)
    → IsSynced s
    → s.disk.writable ≡ true
    → IsSynced (persist_missing names s) × ((persist_missing names s).disk.writable ≡ true)
unfolding persist_missing
persist_missing_keeps [] s h w = (h, w)
persist_missing_keeps (name ∷ names) s h w =
    let (k, v) = persist_new_keeps s name (BTreeMap.get name s.disk.dirs) h w in
    persist_missing_keeps names (persist_new name s (BTreeMap.get name s.disk.dirs)) k v

-- A restart on a writable directory that agrees with memory succeeds, finds under every name the
-- profile that memory held, and memory and disk agree afterwards.
pub restart-IsSynced :
    (now : ℕ) (s : ProfileStore)
    → IsSynced s
    → s.disk.writable ≡ true
    → (t : ProfileStore) × ((load now s.disk ≡ ok t)
        × (((name : Text) → BTreeMap.get name t.profiles ≡ BTreeMap.get name s.profiles)
            × (IsSynced t × (t.disk.writable ≡ true))))
unfolding load BTreeMap.get
restart-IsSynced now s h w =
    let (m, (e, g)) =
      load_loop_total now s.disk.dirs (λ j. BTreeMap.get j s.profiles) [] h.ordered (h.same now) in
    let t : ProfileStore = record { profiles = m; disk = s.disk } in
    let same = λ (name : Text). g name ∙ or_else-none (BTreeMap.get name s.profiles) in
    let k : IsSynced t = record {
      ordered = h.ordered;
      no_others = h.no_others;
      plain = h.plain;
      same = λ n j. h.same n j ∙ ap ok (sym (same j));
    } in
    (
      persist_missing (keys m) t,
      (
        rw (e) refl,
        (
          λ name. ap (BTreeMap.get name) (persist_missing-profiles (keys m) t) ∙ same name,
          persist_missing_keeps (keys m) t k w,
        ),
      ),
    )
