-- ===== src/Profile/Scheme/Listing.antt =====
-- `getdents` of snix-redox/src/profiled/scheme.rs: the entries of a directory handle from an offset.
-- The buffer is that of the system call library: `entry` answers whether an entry went into it, and
-- what the buffer is then, also where the entry did not go in.
pub mod Pages
use nix_redox.Base.{
  ℕ, zero, suc, ◌+◌, ◌≤◌, leb, Text, bytes, Bool, true, false, Option, none, some, List, [], ◌∷◌,
  ◌++◌, length, length-append, drop, Result, ok, err, if◌then◌else◌, ◌≡◌, refl, sym, ap, ◌∙◌, arith,
  Bool-cases, inl, inr,
}
use nix_redox.Base.Strings.{text_key, nat_key}
use nix_redox.Base.Slices.{is_empty}
use nix_redox.Base.BTreeMap
use nix_redox.Profile.Mapping.{ProfileMapping, UnionEntry, list_union_from_manifests}
use nix_redox.Profile.Persistence.{list_profiles}
use nix_redox.Profile.Handles.{Handle, file, dir, control, DirHandle}
use nix_redox.Profile.Scheme.{Handler, Errno, ebadf, enotdir, Manifests}

pub data DirentKind : Type 0 where
  directory regular symlink : DirentKind

pub record Dirent : Type 0 where
  pub name : Text
  pub kind : DirentKind
  pub next_opaque_id : ℕ

-- `.control` behind `n` others.
abbrev pub control_entry : ℕ → Dirent
control_entry n = record { name = bytes ".control"; kind = regular; next_opaque_id = n + 1 }

-- `enumerate`
abbrev pub numbered : ℕ → List (Text × DirentKind) → List Dirent
numbered i [] = []
numbered i ((name, kind) ∷ rest) =
    record { name = name; kind = kind; next_opaque_id = i + 1 } ∷ numbered (i + 1) rest

abbrev directories : List Text → List (Text × DirentKind)
directories [] = []
directories (name ∷ names) = (name, directory) ∷ directories names

-- At the root of a profile a symbolic link is shown as a file.
abbrev pub top_entries : List UnionEntry → List (Text × DirentKind)
top_entries [] = []
top_entries (e ∷ es) = (e.name, if e.is_dir then directory else regular) ∷ top_entries es

abbrev sub_entries : List UnionEntry → List (Text × DirentKind)
sub_entries [] = []
sub_entries (e ∷ es) =
    (e.name, if e.is_dir then directory else if e.is_symlink then symlink else regular)
    ∷ sub_entries es

module _ {B : Type 0} (entry : B → Dirent → Bool × B) where
  -- The loops stop at the first entry that does not go in.
  unfoldable pub fill : B → List Dirent → B
  fill buf [] = buf
  fill buf (e ∷ es) =
      let (fits, buf') = entry buf e in let rest = fill buf' es in if fits then rest else buf'

  -- The entry of `.control` behind all others; its answer is dropped.
  abbrev with_control : List (Text × DirentKind) → ℕ → B → B
  with_control entries start buf =
      if leb start (length entries) then (entry buf (control_entry (length entries))).1 else buf

  abbrev pub list_top : List (Text × DirentKind) → ℕ → B → B
  list_top entries start buf =
      with_control entries start (fill buf (drop start (numbered 0 entries)))

  abbrev list_in : Manifests → Text → ℕ → B → Option ProfileMapping → B
  list_in manifests subpath start buf none = buf
  list_in manifests subpath start buf (some mapping) =
      if is_empty subpath
      then list_top (top_entries (list_union_from_manifests mapping [] manifests)) start buf
      else fill buf (
          drop start
            (numbered 0 (sub_entries (list_union_from_manifests mapping subpath manifests))))

  abbrev list_dir : Handler → DirHandle → ℕ → B → B
  list_dir s dh start buf =
      if is_empty dh.profile_name
      then fill buf (drop start (numbered 0 (directories (list_profiles s.daemon.profiles))))
      else list_in s.daemon.manifests dh.subpath start buf
          (BTreeMap.get dh.profile_name s.daemon.profiles.profiles)

  abbrev list_handle : Handler → Option Handle → ℕ → B → Result Errno B
  list_handle s none start buf = err ebadf
  list_handle s (some (file fh)) start buf = err enotdir
  list_handle s (some (control ch)) start buf = err enotdir
  list_handle s (some (dir dh)) start buf = ok (list_dir s dh start buf)

  unfoldable pub getdents : Handler → ℕ → B → ℕ → Result Errno B
  unfolding fill
  getdents s id buf start = list_handle s (BTreeMap.get id s.handles.handles) start buf
