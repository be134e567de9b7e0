-- ===== src/Profile/Scheme/Examples.antt =====
-- A daemon with one profile and one open control handle, and a file that is read in two pieces.
use nix_redox.Base.{
  ℕ, zero, suc, ◌+◌, ◌==◌, ==_iff, ◌≤◌, leb, Text, bytes, Bool, true, false, Option, none, some,
  List, [], ◌∷◌, ◌++◌, length, drop, Result, ok, err, if◌then◌else◌, ◌≡◌, refl, arith,
}
use nix_redox.Base.Strings.{text_key, nat_key}
use nix_redox.Base.BTreeMap
use nix_redox.Nar.{ManifestEntry}
use nix_redox.Profile.Mapping.{ProfileEntry, list_union_from_manifests}
use nix_redox.Profile.Persistence.{ControlCommand}
use nix_redox.Profile.Handles.{
  Handle, file, dir, control, DirHandle, ControlHandle, HandleTable, max_handle_id, alloc_id,
  open_file_lazy, open_file, open_dir, open_control, read,
}
use nix_redox.Profile.Handles.Alloc.{IsTable, Fresh, alloc_id-Fresh}
use nix_redox.Profile.Handles.Table.{Opened, OpenedAs, open-Opened, read_pieces}
use nix_redox.Profile.Scheme.{Handler, on_close, run_command}
use nix_redox.Profile.Scheme.Control.{write_pieces, concat, filled, on_close-write_pieces}
use nix_redox.Profile.Scheme.Listing.{
  Dirent, DirentKind, regular, control_entry, numbered, getdents,
}
use nix_redox.Profile.Scheme.Listing.Pages.{AtTop, getdents_pages}

abbrev root : DirHandle
root = record { scheme_path = bytes "default"; profile_name = bytes "default"; subpath = [] }

abbrev commands : ControlHandle
commands = record {
  profile_name = bytes "default";
  scheme_path = bytes "default/.control";
  buffer = [];
}

-- The next id is in use.
abbrev table : HandleTable
table = record { next_id = 1; handles = (1, dir root) ∷ (2, control commands) ∷ [] }

table-IsTable : IsTable table
table-IsTable = record { positive = omega arith; bounded = omega arith; room = omega arith }

alloc_id-Fresh_example : Fresh max_handle_id table (alloc_id table)
alloc_id-Fresh_example = alloc_id-Fresh table table-IsTable

abbrev files : Text → Option (List ℕ)
files path = some (10 ∷ 20 ∷ 30 ∷ [])

open-Opened_example :
    Opened table
      (file (record {
        content = none;
        real_path = bytes "/s/r/bin/rg";
        scheme_path = bytes "default/bin/rg";
        size = 5;
        executable = true;
      }))
      (open_file_lazy table (bytes "/s/r/bin/rg") (bytes "default/bin/rg") 5 true)
    × OpenedAs table
        (file (record {
          content = some (10 ∷ 20 ∷ 30 ∷ []);
          real_path = bytes "/s/r/bin/rg";
          scheme_path = bytes "default/bin/rg";
          size = 3;
          executable = false;
        }))
        (open_file files table (bytes "/s/r/bin/rg") (bytes "default/bin/rg"))
    × Opened table
        (dir (record {
          scheme_path = bytes "default/bin/rg";
          profile_name = bytes "default";
          subpath = bytes "bin";
        }))
        (open_dir table (bytes "default/bin/rg") (bytes "default") (bytes "bin"))
    × Opened table
        (control (record {
          profile_name = bytes "default";
          scheme_path = bytes "default/bin/rg";
          buffer = [];
        }))
        (open_control table (bytes "default") (bytes "default/bin/rg"))
open-Opened_example =
    open-Opened files table (bytes "/s/r/bin/rg") (bytes "default/bin/rg") (bytes "default")
      (bytes "bin") 5 true (10 ∷ 20 ∷ 30 ∷ []) table-IsTable refl

abbrev no_files : Text → Option (List ℕ)
no_files path = none

abbrev with_file : HandleTable
with_file = (open_file_lazy table (bytes "/s/r/bin/rg") (bytes "default/bin/rg") 5 true).1

first_piece : (read files with_file 3 2 0).0 ≡ ok (10 ∷ 20 ∷ [])
unfolding read open_file_lazy alloc_id nix_redox.Profile.Handles.alloc_loop BTreeMap.get
    BTreeMap.insert BTreeMap.contains_key
first_piece = refl

read_pieces_example :
    (second : List ℕ) × ((read no_files (read files with_file 3 2 0).1 3 2 2).0 ≡ ok second)
    × ((read files with_file 3 4 0).0 ≡ ok ((10 ∷ 20 ∷ []) ++ second))
read_pieces_example = read_pieces files no_files with_file 3 2 2 0 (10 ∷ 20 ∷ []) first_piece

abbrev rg : ProfileEntry
rg = record { name = bytes "rg"; store_path = bytes "/s/r"; installed_at = 3 }

abbrev manifest : List ManifestEntry
manifest =
    record { path = bytes "completions"; entry_type = bytes "file"; size = 1; executable = false }
    ∷ record { path = bytes "doc"; entry_type = bytes "file"; size = 1; executable = false }
    ∷ []

abbrev handler : Handler
handler = record {
  daemon = record {
    profiles = record {
      profiles = (bytes "default", record { version = 1; packages = rg ∷ [] }) ∷ [];
      disk = record {
        dirs = [];
        writable = true;
        outside = [];
        writable_outside = λ name. true;
        others = λ name. false;
      };
    };
    manifests = (bytes "/s/r", manifest) ∷ [];
  };
  handles = table;
}

abbrev parse : List ℕ → Option ControlCommand
parse buffer = none

commands_open : BTreeMap.get 2 handler.handles.handles ≡ some (control commands)
unfolding BTreeMap.get
commands_open = refl

on_close-write_pieces_example :
    ((on_close parse 4 (write_pieces handler 2 (bytes "{" ∷ bytes "}" ∷ [])) 2).daemon
      ≡ run_command parse 4 handler.daemon
          (some (control (filled commands (concat (bytes "{" ∷ bytes "}" ∷ []))))))
    × (BTreeMap.get 1
          (on_close parse 4 (write_pieces handler 2 (bytes "{" ∷ bytes "}" ∷ [])) 2).handles.handles
        ≡ (if 2 == 1 then none else BTreeMap.get 1 handler.handles.handles))
on_close-write_pieces_example =
    on_close-write_pieces parse (bytes "{" ∷ bytes "}" ∷ []) 4 handler 2 1 commands commands_open

-- A buffer with room for two entries, which a third one empties.
abbrev two_entries : List Dirent → Dirent → Bool × List Dirent
two_entries buf e = if leb 2 (length buf) then (false, []) else (true, buf ++ (e ∷ []))

abbrev written : List Dirent → List Dirent
written buf = buf

abbrev top : List (Text × DirentKind)
top = (bytes "completions", regular) ∷ (bytes "doc", regular) ∷ []

root-AtTop : AtTop handler 1 top
unfolding BTreeMap.get BTreeMap.insert list_union_from_manifests nix_redox.Base.Strings.text_eq
    nix_redox.Base.Slices.strip_prefix nix_redox.Base.Slices.split_once
    nix_redox.Base.Strings.text_lt
root-AtTop = record {
  handle = root;
  mapping = record { version = 1; packages = rg ∷ [] };
  opened = refl;
  named = refl;
  top = refl;
  mapped = refl;
  listed = refl;
}

getdents_pages_example :
    (buf' : List Dirent) × ((getdents two_entries handler 1 [] 1 ≡ ok buf')
      × (buf' ≡ [] ++ drop 1 (numbered 0 top ++ (control_entry 2 ∷ []))))
getdents_pages_example =
    getdents_pages two_entries written handler 1 1 [] top root-AtTop (refl, refl, (refl, refl, tt))
