-- ===== src/Profile/Handles.antt =====
-- `HandleTable` of snix-redox/src/profiled/handles.rs: the open files, directories and control
-- interfaces of the profile daemon. `preload` stands for the worker thread, or the file system where
-- there is none: the bytes of a file, or an error.
pub mod Alloc
pub mod Table
use nix_redox.Base.{
  ℕ, zero, suc, ◌+◌, ◌-◌, ◌^◌, min, Text, Bool, true, false, not, ◌&&◌, leb, Option, none, some,
  List, [], ◌∷◌, ◌++◌, length, take, drop, Result, ok, err, if◌then◌else◌,
}
use nix_redox.Base.Strings.{nat_key}
use nix_redox.Base.BTreeMap
use nix_redox.Base.BTreeMap.{BTreeMap}

-- `content` is what has been read of the file, once it has been.
pub record FileHandle : Type 0 where
  pub content : Option (List ℕ)
  pub real_path : Text
  pub scheme_path : Text
  pub size : ℕ
  pub executable : Bool

pub record DirHandle : Type 0 where
  pub scheme_path : Text
  pub profile_name : Text
  pub subpath : Text

pub record ControlHandle : Type 0 where
  pub profile_name : Text
  pub scheme_path : Text
  pub buffer : List ℕ

pub data Handle : Type 0 where
  file : FileHandle → Handle
  dir : DirHandle → Handle
  control : ControlHandle → Handle

pub record HandleTable : Type 0 where
  pub next_id : ℕ
  pub handles : BTreeMap ℕ Handle

pub data HandleError : Type 0 where
  handle_not_found : ℕ → HandleError
  not_readable read_only_handle io_failed : HandleError

-- `usize::MAX - 4096`
abbrev pub max_handle_id : ℕ
max_handle_id = 2 ^ 64 - 1 - 4096

abbrev pub new : HandleTable
new = record { next_id = 1; handles = [] }

-- The id after an id.
abbrev pub next_after : ℕ → ℕ → ℕ
next_after max id = if leb max id then 1 else id + 1

-- The loop of `alloc_id`, for at most `fuel` rounds.
unfoldable pub alloc_loop : ℕ → ℕ → HandleTable → Option ℕ × HandleTable
alloc_loop max zero t = (none, t)
alloc_loop max (suc fuel) t =
    let t' = record t { next_id = next_after max t.next_id } in
    let rest = alloc_loop max fuel t' in
    if leb 1 t.next_id && leb t.next_id max && not (BTreeMap.contains_key t.next_id t.handles)
    then (some t.next_id, t')
    else rest

-- With more open handles than rounds the loop meets a free id.
unfoldable pub alloc_id : HandleTable → Option ℕ × HandleTable
unfolding alloc_loop
alloc_id t = alloc_loop max_handle_id (suc (length t.handles)) t

-- Insert under a fresh id. The source does not return where no id is free.
abbrev pub put : Handle → Option ℕ × HandleTable → Option ℕ × HandleTable
put h (none, t) = (none, t)
put h (some id, t) = (some id, record t { handles = BTreeMap.insert id h t.handles })

unfoldable pub open_file_lazy : HandleTable → Text → Text → ℕ → Bool → Option ℕ × HandleTable
unfolding alloc_id
open_file_lazy t real_path scheme_path size executable =
    put
      (file (record {
        content = none;
        real_path = real_path;
        scheme_path = scheme_path;
        size = size;
        executable = executable;
      }))
      (alloc_id t)

unfoldable pub open_file :
    (Text → Option (List ℕ))
    → HandleTable
    → Text
    → Text
    → Result HandleError (Option ℕ) × HandleTable
unfolding alloc_id
open_file fs t real_path scheme_path = elim (fs real_path) [
  | none ↦ (err io_failed, t)
  | some found ↦
      let (id, t') =
        put
          (file (record {
            content = some found;
            real_path = real_path;
            scheme_path = scheme_path;
            size = length found;
            executable = false;
          }))
          (alloc_id t) in
      (ok id, t')
]

unfoldable pub open_dir : HandleTable → Text → Text → Text → Option ℕ × HandleTable
unfolding alloc_id
open_dir t scheme_path profile_name subpath =
    put (dir (record { scheme_path = scheme_path; profile_name = profile_name; subpath = subpath }))
      (alloc_id t)

unfoldable pub open_control : HandleTable → Text → Text → Option ℕ × HandleTable
unfolding alloc_id
open_control t profile_name scheme_path =
    put (control (record { profile_name = profile_name; scheme_path = scheme_path; buffer = [] }))
      (alloc_id t)

-- The bytes at an offset, at most as many as the buffer holds.
abbrev pub slice : List ℕ → ℕ → ℕ → List ℕ
slice content len offset = take (min (length content - offset) len) (drop offset content)

-- The handle with the content of its file.
abbrev pub loaded : FileHandle → List ℕ → FileHandle
loaded fh found = record fh { size = length found; content = some found }

unfoldable pub read :
    (Text → Option (List ℕ)) → HandleTable → ℕ → ℕ → ℕ → Result HandleError (List ℕ) × HandleTable
read preload t id len offset = elim (BTreeMap.get id t.handles) [
  | none ↦ (err (handle_not_found id), t)
  | some (dir dh) ↦ (err not_readable, t)
  | some (control ch) ↦ (err not_readable, t)
  | some (file fh) ↦ elim fh.content [
    | some content ↦ (ok (slice content len offset), t)
    | none ↦ elim (preload fh.real_path) [
      | none ↦ (err io_failed, t)
      | some found ↦ (
        ok (slice found len offset),
        record t { handles = BTreeMap.insert id (file (loaded fh found)) t.handles },
      )
    ]
  ]
]

unfoldable pub write : HandleTable → ℕ → List ℕ → Result HandleError ℕ × HandleTable
write t id bytes = elim (BTreeMap.get id t.handles) [
  | none ↦ (err (handle_not_found id), t)
  | some (dir dh) ↦ (err read_only_handle, t)
  | some (file fh) ↦ (err read_only_handle, t)
  | some (control ch) ↦ (
    ok (length bytes),
    record t {
      handles = BTreeMap.insert id (control (record ch { buffer = ch.buffer ++ bytes })) t.handles;
    },
  )
]

abbrev pub scheme_path_of : Handle → Text
scheme_path_of (file fh) = fh.scheme_path
scheme_path_of (dir dh) = dh.scheme_path
scheme_path_of (control ch) = ch.scheme_path

unfoldable pub scheme_path : HandleTable → ℕ → Option Text
scheme_path t id = elim (BTreeMap.get id t.handles) [
  | none ↦ none
  | some h ↦ some (scheme_path_of h)
]

abbrev pub size_of : Handle → ℕ
size_of (file fh) = fh.size
size_of (dir dh) = 0
size_of (control ch) = 0

unfoldable pub file_size : HandleTable → ℕ → Option ℕ
file_size t id = elim (BTreeMap.get id t.handles) [ none ↦ none | some h ↦ some (size_of h) ]

unfoldable pub close : HandleTable → ℕ → Option Handle × HandleTable
close t id = (BTreeMap.get id t.handles, record t { handles = BTreeMap.remove id t.handles })
