-- ===== src/Profile/Refinement.antt =====
-- What the profile daemon promises: profiles are a table from a profile and a package name to a store
-- path, which commands change and restarts keep.
use nix_redox.Base.{
  ℕ, Text, bytes, Bool, true, false, Option, none, some, List, [], ◌∷◌, Result, ok, err, ◌>>=◌,
  if◌then◌else◌, ◌≡◌, refl, sym, ap, ◌∙◌, Bool-cases, inl, inr,
}
use nix_redox.Base.Strings.{text_key, text_eq}
use nix_redox.Profile.Persistence.{
  is_dir_name, ProfileStore, ProfileError, ControlCommand, add_package, remove_package,
  process_control, added_reply, removed_reply, run_add, load,
}
use nix_redox.Profile.Persistence.Removal.{}
use nix_redox.Profile.Persistence.Restart.{restart-IsSynced}
use nix_redox.Profile.Catalog.{
  Catalog, update, catalog_of, IsSound, Refines, same_catalog, add_package-Refines,
  remove_package-Refines,
}
use mathlib.Core.Path.{fun_ext}

-- What adding a package does, if the command names a path.
abbrev add_to : Text → Text → Option Text → Catalog → Catalog
add_to profile name none c = c
add_to profile name (some path) c = update profile name (some path) c

-- What a command does to the catalog.
pub spec_command : Text → Option ControlCommand → Catalog → Catalog
spec_command profile none c = c
spec_command profile (some cmd) c =
    if text_eq cmd.action (bytes "add")
    then add_to profile cmd.name cmd.store_path c
    else if text_eq cmd.action (bytes "remove")
    then update profile cmd.name none c
    else c

pub data Event : Type 0 where
  command : Text → Option ControlCommand → ℕ → Event
  restart : ℕ → Event

pub spec_run : List Event → Catalog → Catalog
unfolding spec_command
spec_run [] c = c
spec_run (command profile cmd now ∷ events) c = spec_run events (spec_command profile cmd c)
spec_run (restart now ∷ events) c = spec_run events c

-- The commands are for profiles with plain names.
abbrev pub AllPlain : List Event → Type 0
AllPlain [] = Unit
AllPlain (command profile cmd now ∷ events) = (is_dir_name profile ≡ true) × AllPlain events
AllPlain (restart now ∷ events) = AllPlain events

-- The daemon: commands, and restarts that load what is on disk.
pub run : List Event → ProfileStore → Result ProfileError ProfileStore
unfolding process_control load
run [] s = ok s
run (command profile cmd now ∷ events) s = run events (process_control s profile cmd now).1
run (restart now ∷ events) s = load now s.disk >>= λ t. run events t

added-state :
    (cmd : ControlCommand) (path : Text) (r : Result ProfileError (Unit {0}) × ProfileStore)
    → (added_reply cmd path r).1 ≡ r.1
added-state cmd path (ok u, s) = refl
added-state cmd path (err e, s) = refl

removed-state :
    (cmd : ControlCommand) (r : Result ProfileError Bool × ProfileStore)
    → (removed_reply cmd r).1 ≡ r.1
removed-state cmd (ok true, s) = refl
removed-state cmd (ok false, s) = refl
removed-state cmd (err e, s) = refl

Refines-same : (s : ProfileStore) → IsSound s → Refines s s (λ c. c)
Refines-same s h = record { sound = h; catalog = λ p n. refl }

Refines-ext :
    {s t : ProfileStore} {f g : Catalog → Catalog}
    → Refines s t f
    → ((c : Catalog) → g c ≡ f c)
    → Refines s t g
Refines-ext {s} r e = record {
  sound = r.sound;
  catalog = λ p n. r.catalog p n ∙ sym (ap (λ c. c p n) (e (catalog_of s)));
}

spec_none : (profile : Text) (c : Catalog) → spec_command profile none c ≡ c
unfolding spec_command
spec_none profile c = refl

spec_add :
    (profile : Text) (cmd : ControlCommand)
    → text_eq cmd.action (bytes "add") ≡ true
    → (c : Catalog) → spec_command profile (some cmd) c ≡ add_to profile cmd.name cmd.store_path c
unfolding spec_command
spec_add profile cmd a c = rw (a) refl

spec_remove :
    (profile : Text) (cmd : ControlCommand)
    → text_eq cmd.action (bytes "add") ≡ false
    → text_eq cmd.action (bytes "remove") ≡ true
    → (c : Catalog) → spec_command profile (some cmd) c ≡ update profile cmd.name none c
unfolding spec_command
spec_remove profile cmd a r c = rw (a, r) refl

spec_other :
    (profile : Text) (cmd : ControlCommand)
    → text_eq cmd.action (bytes "add") ≡ false
    → text_eq cmd.action (bytes "remove") ≡ false
    → (c : Catalog) → spec_command profile (some cmd) c ≡ c
unfolding spec_command
spec_other profile cmd a r c = rw (a, r) refl

add-Refines :
    (s : ProfileStore) (profile : Text) (cmd : ControlCommand) (now : ℕ) (path : Option Text)
    → IsSound s
    → is_dir_name profile ≡ true
    → Refines s (run_add s profile cmd now path).1 (add_to profile cmd.name path)
add-Refines s profile cmd now none h u = Refines-same s h
add-Refines s profile cmd now (some path) h u =
    rw (added-state cmd path (add_package s profile cmd.name path now))
      (add_package-Refines s profile cmd.name path now h u)

-- A command for a profile with a plain name, on a writable directory, keeps memory and disk together and does to the catalog what the
-- specification says.
process_control-Refines :
    (s : ProfileStore) (profile : Text) (cmd : Option ControlCommand) (now : ℕ)
    → IsSound s
    → is_dir_name profile ≡ true
    → Refines s (process_control s profile cmd now).1 (spec_command profile cmd)
unfolding process_control
process_control-Refines s profile none now h u =
    Refines-ext (Refines-same s h) (λ c. spec_none profile c)
process_control-Refines s profile (some cmd) now h u =
    elim (Bool-cases (text_eq cmd.action (bytes "add"))) [
      | inl a ↦
          rw (a) (
            Refines-ext (add-Refines s profile cmd now cmd.store_path h u) (spec_add profile cmd a))
      | inr na ↦ elim (Bool-cases (text_eq cmd.action (bytes "remove"))) [
        | inl r ↦
            rw (na, r, removed-state cmd (remove_package s profile cmd.name))
              (Refines-ext (remove_package-Refines s profile cmd.name h)
                (spec_remove profile cmd na r))
        | inr nr ↦ elim (Bool-cases (text_eq cmd.action (bytes "list"))) [
          | inl l ↦ rw (na, nr, l) (Refines-ext (Refines-same s h) (spec_other profile cmd na nr))
          | inr nl ↦ rw (na, nr, nl) (Refines-ext (Refines-same s h) (spec_other profile cmd na nr))
        ]
      ]
    ]

-- Any sequence of commands for profiles with plain names and of restarts, from a state in which memory
-- and disk agree and the directory can be written, runs through; the catalog at its end is the specification's, in which restarts do
-- nothing, and memory and disk still agree.
pub run-spec_run :
    (events : List Event) (s : ProfileStore)
    → IsSound s
    → AllPlain events
    → (t : ProfileStore) × ((run events s ≡ ok t)
        × (IsSound t × (catalog_of t ≡ spec_run events (catalog_of s))))
unfolding run spec_run
run-spec_run [] s h a = (s, (refl, (h, refl)))
run-spec_run (command profile cmd now ∷ events) s h (u, a) =
    let r = process_control-Refines s profile cmd now h u in
    let (t, (e, (k, c))) = run-spec_run events (process_control s profile cmd now).1 r.sound a in
    (t, (e, (k, c ∙ ap (spec_run events) (fun_ext (λ p. fun_ext (λ n. r.catalog p n))))))
run-spec_run (restart now ∷ events) s h a =
    let (u, (l, (g, (k, w)))) = restart-IsSynced now s h.synced h.writable in
    let (t, (e, (i, c))) = run-spec_run events u (record { synced = k; writable = w }) a in
    (
      t,
      (
        rw (l) e,
        (i, c ∙ ap (spec_run events) (fun_ext (λ p. fun_ext (λ n. same_catalog s u g p n)))),
      ),
    )
