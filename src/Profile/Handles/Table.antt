-- ===== src/Profile/Handles/Table.antt =====
-- What handles hold: nothing but an operation on a handle itself changes it.
use nix_redox.Base.{
  ℕ, ◌+◌, ◌≤◌, Text, Bool, false, ◌==◌, Option, none, some, List, [], ◌++◌, length, length-drop,
  take, take-append, take-min, drop, drop-drop, Result, ok, err, if◌then◌else◌, ◌≡◌, refl, sym, ap,
  ◌∙◌, subst, arith, Option-cases, inl, inr,
}
use nix_redox.Base.Strings.{nat_key}
use nix_redox.Base.BTreeMap
use nix_redox.Base.BTreeMap.{BTreeMap}
use nix_redox.Profile.Handles.{
  Handle, file, dir, control, FileHandle, ControlHandle, HandleTable, HandleError, max_handle_id,
  alloc_id, put, open_file_lazy, open_file, open_dir, open_control, slice, loaded, read,
  handle_not_found, not_readable, io_failed, DirHandle,
}
use nix_redox.Profile.Handles.Alloc.{IsTable, Fresh, alloc_id-Fresh}

-- A handle has been opened under an id that was not in use, and no other handle has changed.
pub record Opened (t : HandleTable) (h : Handle) (r : Option ℕ × HandleTable) : Type 0 where
  pub id : ℕ
  pub found : r.0 ≡ some id
  pub unused : BTreeMap.get id t.handles ≡ none
  pub there :
      (j : ℕ) → BTreeMap.get j r.1.handles ≡ (if id == j then some h else BTreeMap.get j t.handles)
  pub next_low : 1 ≤ r.1.next_id
  pub next_high : r.1.next_id ≤ max_handle_id

put-Opened :
    (t : HandleTable) (h : Handle) (r : Option ℕ × HandleTable)
    → Fresh max_handle_id t r
    → Opened t h (put h r)
put-Opened t h (none, t') f = absurd (ground (arith, f.found))
put-Opened t h (some id, t') f = record {
  id = id;
  found = refl;
  unused = subst (λ x. BTreeMap.get x t.handles ≡ none) (ground (arith, f.found)) f.free;
  there = λ j.
      BTreeMap.get-insert id j h t'.handles
      ∙ ap (λ m. if id == j then some h else BTreeMap.get j m) f.kept;
  next_low = f.next_low;
  next_high = f.next_high;
}

abbrev eager_file : List ℕ → Text → Text → Handle
eager_file found real_path path = file (record {
  content = some found;
  real_path = real_path;
  scheme_path = path;
  size = length found;
  executable = false;
})

-- An open that succeeded.
abbrev pub OpenedAs : HandleTable → Handle → Result HandleError (Option ℕ) × HandleTable → Type 0
OpenedAs t h (err e, t') = ⊥
OpenedAs t h (ok id, t') = Opened t h (id, t')

open_file_step :
    (fs : Text → Option (List ℕ)) (t : HandleTable) (real_path path : Text) (found : List ℕ)
    → fs real_path ≡ some found
    → open_file fs t real_path path
      ≡ (let (id, t') = put (eager_file found real_path path) (alloc_id t) in (ok id, t'))
unfolding open_file
open_file_step fs t real_path path found f = rw (f, open_file) refl

-- As long as an id is left, each kind of open, the eager one where the file can be read, answers an id
-- that was not in use, puts the new handle under it, and leaves every open handle as it is.
pub open-Opened :
    (fs : Text → Option (List ℕ)) (t : HandleTable) (real_path path profile sub : Text) (size : ℕ)
    (executable : Bool) (found : List ℕ)
    → IsTable t
    → fs real_path ≡ some found
    → Opened t
        (file (record {
          content = none;
          real_path = real_path;
          scheme_path = path;
          size = size;
          executable = executable;
        }))
        (open_file_lazy t real_path path size executable)
      × OpenedAs t
          (file (record {
            content = some found;
            real_path = real_path;
            scheme_path = path;
            size = length found;
            executable = false;
          }))
          (open_file fs t real_path path)
      × Opened t
          (dir (record { scheme_path = path; profile_name = profile; subpath = sub }))
          (open_dir t path profile sub)
      × Opened t
          (control (record { profile_name = profile; scheme_path = path; buffer = [] }))
          (open_control t profile path)
unfolding open_file_lazy open_dir open_control
open-Opened fs t real_path path profile sub size executable found h f = (
  put-Opened t _ (alloc_id t) (alloc_id-Fresh t h),
  rw (open_file_step fs t real_path path found f)
      (put-Opened t (eager_file found real_path path) (alloc_id t) (alloc_id-Fresh t h)),
  put-Opened t _ (alloc_id t) (alloc_id-Fresh t h),
  put-Opened t _ (alloc_id t) (alloc_id-Fresh t h),
)

slice-take : (c : List ℕ) (n o : ℕ) → slice c n o ≡ take n (drop o c)
slice-take c n o = rw (← length-drop o c) (take-min n (drop o c))

slice-append : (c : List ℕ) (a b o : ℕ) → slice c a o ++ slice c b (o + a) ≡ slice c (a + b) o
slice-append c a b o =
    rw (slice-take c a o, slice-take c b (o + a), slice-take c (a + b) o, ← drop-drop o a c)
      (take-append a b (drop o c))

read_cached :
    (preload : Text → Option (List ℕ)) (t : HandleTable) (id len offset : ℕ) (fh : FileHandle)
    (content : List ℕ)
    → BTreeMap.get id t.handles ≡ some (file fh)
    → fh.content ≡ some content
    → read preload t id len offset ≡ (ok (slice content len offset), t)
unfolding read
read_cached preload t id len offset fh content e c = rw (e, read, c) refl

read_loads :
    (preload : Text → Option (List ℕ)) (t : HandleTable) (id len offset : ℕ) (fh : FileHandle)
    (found : List ℕ)
    → BTreeMap.get id t.handles ≡ some (file fh)
    → fh.content ≡ none
    → preload fh.real_path ≡ some found
    → read preload t id len offset ≡ (
      ok (slice found len offset),
      record t { handles = BTreeMap.insert id (file (loaded fh found)) t.handles },
    )
unfolding read
read_loads preload t id len offset fh found e c p = rw (e, read, c, p) refl

err_not_ok {ℓ κ} :
    {E : Type ℓ} {A : Type κ} (r : Result E A) (e : E) (a : A) → r ≡ err e → r ≡ ok a → ⊥
err_not_ok (ok b) e a p q = ground arith
err_not_ok (err b) e a p q = ground arith

ok-injective {ℓ κ} :
    {E : Type ℓ} {A : Type κ} (a b : A) → ◌≡◌ {A = Result E A} (ok a) (ok b) → a ≡ b
ok-injective a b e = ground arith

read_no_handle :
    (preload : Text → Option (List ℕ)) (t : HandleTable) (id len offset : ℕ)
    → BTreeMap.get id t.handles ≡ none
    → (read preload t id len offset).0 ≡ err (handle_not_found id)
unfolding read
read_no_handle preload t id len offset e = rw (e, read) refl

read_dir_handle :
    (preload : Text → Option (List ℕ)) (t : HandleTable) (id len offset : ℕ) (dh : DirHandle)
    → BTreeMap.get id t.handles ≡ some (dir dh)
    → (read preload t id len offset).0 ≡ err not_readable
unfolding read
read_dir_handle preload t id len offset dh e = rw (e, read) refl

read_control_handle :
    (preload : Text → Option (List ℕ)) (t : HandleTable) (id len offset : ℕ) (ch : ControlHandle)
    → BTreeMap.get id t.handles ≡ some (control ch)
    → (read preload t id len offset).0 ≡ err not_readable
unfolding read
read_control_handle preload t id len offset ch e = rw (e, read) refl

read_io_fails :
    (preload : Text → Option (List ℕ)) (t : HandleTable) (id len offset : ℕ) (fh : FileHandle)
    → BTreeMap.get id t.handles ≡ some (file fh)
    → fh.content ≡ none
    → preload fh.real_path ≡ none
    → (read preload t id len offset).0 ≡ err io_failed
unfolding read
read_io_fails preload t id len offset fh e c p = rw (e, read, c, p) refl

-- A read that succeeded: the content that it was cut from, which later reads are cut from as well.
record Cut (preload : Text → Option (List ℕ)) (t t' : HandleTable) (id len offset : ℕ)
    (bytes : List ℕ) : Type 0 where
  content : List ℕ
  bytes_cut : bytes ≡ slice content len offset
  later :
      (preload' : Text → Option (List ℕ)) (n o : ℕ)
      → read preload' t' id n o ≡ (ok (slice content n o), t')
  instead : (n o : ℕ) → (read preload t id n o).0 ≡ ok (slice content n o)

module _ (preload : Text → Option (List ℕ)) (t : HandleTable) (id len offset : ℕ)
    (bytes : List ℕ) where
  Cut-cached :
      (fh : FileHandle) (content : List ℕ)
      → BTreeMap.get id t.handles ≡ some (file fh)
      → fh.content ≡ some content
      → (read preload t id len offset).0 ≡ ok bytes
      → Cut preload t (read preload t id len offset).1 id len offset bytes
  Cut-cached fh content g c e = rw (read_cached preload t id len offset fh content g c) (record {
    content = content;
    bytes_cut =
        ok-injective {E = HandleError} bytes (slice content len offset)
          (sym e ∙ ap (λ r. r.0) (read_cached preload t id len offset fh content g c));
    later = λ preload' n o. read_cached preload' t id n o fh content g c;
    instead = λ n o. ap (λ r. r.0) (read_cached preload t id n o fh content g c);
  })

  Cut-loads :
      (fh : FileHandle) (found : List ℕ)
      → BTreeMap.get id t.handles ≡ some (file fh)
      → fh.content ≡ none
      → preload fh.real_path ≡ some found
      → (read preload t id len offset).0 ≡ ok bytes
      → Cut preload t (read preload t id len offset).1 id len offset bytes
  Cut-loads fh found g c p e = rw (read_loads preload t id len offset fh found g c p) (record {
    content = found;
    bytes_cut =
        ok-injective {E = HandleError} bytes (slice found len offset)
          (sym e ∙ ap (λ r. r.0) (read_loads preload t id len offset fh found g c p));
    later = λ preload' n o.
        read_cached preload'
          (record t { handles = BTreeMap.insert id (file (loaded fh found)) t.handles }) id n o
          (loaded fh found) found
          (BTreeMap.get-insert id id (file (loaded fh found)) t.handles ∙ ground arith) refl;
    instead = λ n o. ap (λ r. r.0) (read_loads preload t id n o fh found g c p);
  })

  Cut-handle :
      (h : Handle)
      → BTreeMap.get id t.handles ≡ some h
      → (read preload t id len offset).0 ≡ ok bytes
      → Cut preload t (read preload t id len offset).1 id len offset bytes
  Cut-handle (dir dh) g e =
      absurd (err_not_ok _ not_readable bytes (read_dir_handle preload t id len offset dh g) e)
  Cut-handle (control ch) g e =
      absurd (err_not_ok _ not_readable bytes (read_control_handle preload t id len offset ch g) e)
  Cut-handle (file fh) g e = elim (Option-cases fh.content) [
    | inr (content, c) ↦ Cut-cached fh content g c e
    | inl c ↦ elim (Option-cases (preload fh.real_path)) [
      | inl p ↦
          absurd (err_not_ok _ io_failed bytes (read_io_fails preload t id len offset fh g c p) e)
      | inr (found, p) ↦ Cut-loads fh found g c p e
    ]
  ]

  cut :
      (read preload t id len offset).0 ≡ ok bytes
      → Cut preload t (read preload t id len offset).1 id len offset bytes
  cut e = elim (Option-cases (BTreeMap.get id t.handles)) [
    | inl n ↦
        absurd
          (err_not_ok _ (handle_not_found id) bytes (read_no_handle preload t id len offset n) e)
    | inr (h, g) ↦ Cut-handle h g e
  ]

-- The pieces that a client reads one behind the other are what it would have read at once, even if the
-- file changes, or goes, after the first piece.
pub read_pieces :
    (preload preload' : Text → Option (List ℕ)) (t : HandleTable) (id a b offset : ℕ)
    (first : List ℕ)
    → (read preload t id a offset).0 ≡ ok first
    → (second : List ℕ) × ((read preload' (read preload t id a offset).1 id b (offset + a)).0
        ≡ ok second)
      × ((read preload t id (a + b) offset).0 ≡ ok (first ++ second))
read_pieces preload preload' t id a b offset first e =
    let k = cut preload t id a offset first e in
    (
      slice k.content b (offset + a),
      ap (λ r. r.0) (k.later preload' b (offset + a)),
      k.instead (a + b) offset
          ∙ ap ok (
              sym (slice-append k.content a b offset)
              ∙ ap (λ x. x ++ slice k.content b (offset + a)) (sym k.bytes_cut)),
    )
