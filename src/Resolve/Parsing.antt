-- ===== src/Resolve/Parsing.antt =====
-- What the parser accepts, and what it rejects.
use nix_redox.Base.{
  ℕ, ◌≤◌, Text, Bool, true, false, not, Option, none, some, [], ◌∷◌, ◌++◌, length, get_elem?, ltb,
  ◌==◌, if◌then◌else◌, Result, ok, err, ◌>>=◌, ◌≡◌, ◌≢◌, ◌↔◌, refl, ap, ◌∙◌, arith, Option-cases,
  inl, inr,
}
use nix_redox.Base.Slices.{
  trim, split_once, split_once-some, split_once-append, has_byte, has_dots, ends_in, ends_in-append,
  trim_start-id, trim_end-id,
}
use nix_redox.Resolve.{sub_path, ResolveError, invalid_hash, path_traversal, panic}
use nix_redox.Resolve.{
  all_nixbase32, is_continuation, hash_part, check_at, validate_store_path_name, finish,
  parse_trimmed, parse_scheme_path,
}

-- The shape of a store path name: 32 characters of the alphabet, a dash and a name.
pub record IsName (name : Text) : Type 0 where
  pub long : 34 ≤ length name
  pub dash : get_elem? name 32 ≡ some b'-'
  pub hash : all_nixbase32 (hash_part name) ≡ true

guarded :
    (n : ℕ) (x : ResolveError) (r : Result ResolveError (Unit {0}))
    → ((if ltb n 34 then err x else r) ≡ ok tt) ↔ ((34 ≤ n) × (r ≡ ok tt))
guarded n x r = (λ h. ground arith, λ h. ground arith)

abbrev outcome : Text → ℕ → Bool → Result ResolveError (Unit {0})
outcome name c hash =
    if is_continuation c
    then err panic
    else if not (c == b'-')
    then err (invalid_hash name)
    else if hash
    then ok tt
    else err (invalid_hash name)

checked :
    (name : Text) (c : ℕ) (hash : Bool)
    → (outcome name c hash ≡ ok tt) ↔ ((c ≡ b'-') × (hash ≡ true))
unfolding is_continuation
checked name c hash = (λ h. ground arith, λ h. ground arith)

unsome : (a b : ℕ) → some a ≡ some b → a ≡ b
unsome a b h = ground arith

check_at_exact :
    (name : Text) (o : Option ℕ)
    → (check_at name o ≡ ok tt) ↔ ((o ≡ some b'-') × (all_nixbase32 (hash_part name) ≡ true))
check_at_exact name none =
    (λ h. absurd (unfold check_at in ground arith), λ h. absurd (ground arith))
check_at_exact name (some c) = (
  λ h.
      let parts = (checked name c (all_nixbase32 (hash_part name))).0 (unfold check_at in h) in
      (ap some parts.0, parts.1),
  λ (d, h).
      unfold check_at in (checked name c (all_nixbase32 (hash_part name))).1 (unsome c b'-' d, h),
)

-- The check of a name passes exactly on names of that shape.
pub validate_exact : (name : Text) → (validate_store_path_name name ≡ ok tt) ↔ IsName name
unfolding validate_store_path_name
validate_exact name = (
  λ h.
      let (long, passed) =
        (guarded (length name) (invalid_hash name) (check_at name (get_elem? name 32))).0 h in
      let (dash, hash) = (check_at_exact name (get_elem? name 32)).0 passed in
      record { long = long; dash = dash; hash = hash },
  λ h.
      (guarded (length name) (invalid_hash name) (check_at name (get_elem? name 32))).1
        (h.long, (check_at_exact name (get_elem? name 32)).1 (h.dash, h.hash)),
)

-- What an accepted path of a file inside a store path is.
pub record IsSubPath (path name sub : Text) : Type 0 where
  pub is_name : IsName name
  pub spelled : trim b'/' path ≡ name ++ (b'/' ∷ sub)
  pub one_component : has_byte b'/' name ≡ false
  pub no_dots : has_dots (name ++ (b'/' ∷ sub)) ≡ false
  pub non_empty : sub ≢ []

then-ok :
    {A : Type 0} (r : Result ResolveError (Unit {0})) (a b : A)
    → (r >>= λ _. ok a) ≡ ok b
    → (r ≡ ok tt) × (a ≡ b)
then-ok (ok u) a b h = (refl, ground arith)
then-ok (err e) a b h = absurd (ground arith)

finish-sub_path :
    (name name' sub' : Text) (o : Option Text)
    → finish name o ≡ sub_path name' sub'
    → (name ≡ name') × (o ≡ some sub') × (sub' ≢ [])
unfolding finish
finish-sub_path name name' sub' none h = absurd (ground arith)
finish-sub_path name name' sub' (some []) h = absurd (ground arith)
finish-sub_path name name' sub' (some (c ∷ sub)) h =
    (ground arith, ground arith, λ e. absurd (ground arith))

parse_trimmed-sub_path :
    (path name sub : Text)
    → parse_trimmed path ≡ ok (sub_path name sub)
    → (has_dots path ≡ false)
      × (validate_store_path_name name ≡ ok tt)
      × (split_once b'/' path ≡ some (name, sub))
      × (sub ≢ [])
unfolding parse_trimmed
parse_trimmed-sub_path path name sub h = elim (Option-cases (split_once b'/' path)) [
  | inl n ↦
      let (v, f) =
        then-ok (validate_store_path_name path) (finish path none) (sub_path name sub)
          (ground arith) in
      absurd (ground (arith, finish-sub_path path name sub none f))
  | inr ((before, after), n) ↦
      let (v, f) =
        then-ok (validate_store_path_name before) (finish before (some after)) (sub_path name sub)
          (ground arith) in
      let (same, rest, full) = finish-sub_path before name sub (some after) f in
      (ground arith, rw same at v, ground arith, full)
]

-- An accepted path of a file is, without the slashes at its ends, a well-formed store path name, a
-- slash and a subpath, with two dots in a row nowhere.
pub parse_scheme_path-IsSubPath :
    (path name sub : Text)
    → parse_scheme_path path ≡ ok (sub_path name sub)
    → IsSubPath path name sub
unfolding parse_scheme_path
parse_scheme_path-IsSubPath path name sub h =
    let (dots, valid, split, full) = parse_trimmed-sub_path (trim b'/' path) name sub h in
    let (spelled, single) = split_once-some b'/' (trim b'/' path) name sub split in
    record {
      is_name = (validate_exact name).0 valid;
      spelled = spelled;
      one_component = single;
      no_dots = rw spelled at dots;
      non_empty = full;
    }

-- A path with two dots in a row is refused as a traversal, whatever else it holds.
pub parse_scheme_path_dots :
    (path : Text)
    → has_dots (trim b'/' path) ≡ true
    → parse_scheme_path path ≡ err (path_traversal (trim b'/' path))
unfolding parse_scheme_path parse_trimmed
parse_scheme_path_dots path h = not_empty (trim b'/' path) h
  where
    not_empty : (p : Text) → has_dots p ≡ true → parse_trimmed p ≡ err (path_traversal p)
    not_empty [] e = absurd (unfold has_dots in ground arith)
    not_empty (c ∷ p) e = rw e

parse_trimmed_name :
    (name sub : Text) (c : ℕ)
    → IsName name
    → has_byte b'/' name ≡ false
    → has_dots (name ++ (b'/' ∷ (c ∷ sub))) ≡ false
    → parse_trimmed (name ++ (b'/' ∷ (c ∷ sub))) ≡ ok (sub_path name (c ∷ sub))
unfolding parse_trimmed finish
parse_trimmed_name [] sub c n h d = absurd (omega (arith, n.long))
parse_trimmed_name (x ∷ name) sub c n h d =
    rw (d, parse_trimmed)
      (rw (split_once-append b'/' (x ∷ name) (c ∷ sub) h, parse_trimmed)
        (rw ((validate_exact (x ∷ name)).1 n)))

trim-id :
    (c x : ℕ) (s : Text) → (x == c) ≡ false → ends_in c (x ∷ s) ≡ false → trim c (x ∷ s) ≡ x ∷ s
unfolding trim
trim-id c x s h e = rw (trim_start-id c x s h) (trim_end-id c (x ∷ s) e)

head_not_slash : (x : ℕ) (name : Text) → has_byte b'/' (x ∷ name) ≡ false → (x == b'/') ≡ false
unfolding has_byte
head_not_slash x name h = ground arith

-- Parsing reads back a store path name and a subpath that are written with a slash between them.
pub parse_scheme_path_name :
    (name sub : Text) (c : ℕ)
    → IsName name
    → has_byte b'/' name ≡ false
    → has_dots (name ++ (b'/' ∷ (c ∷ sub))) ≡ false
    → ends_in b'/' (c ∷ sub) ≡ false
    → parse_scheme_path (name ++ (b'/' ∷ (c ∷ sub))) ≡ ok (sub_path name (c ∷ sub))
unfolding parse_scheme_path
parse_scheme_path_name [] sub c n h d e = absurd (omega (arith, n.long))
parse_scheme_path_name (x ∷ name) sub c n h d e =
    ap parse_trimmed (
      trim-id b'/' x (name ++ (b'/' ∷ (c ∷ sub))) (head_not_slash x name h)
        (ends_in-append b'/' b'/' (x ∷ name) (c ∷ sub) ∙ (unfold ends_in in e)))
    ∙ parse_trimmed_name (x ∷ name) sub c n h d
