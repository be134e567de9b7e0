-- ===== src/Resolve/Containment.antt =====
-- Where an accepted path leads in the file system.
use nix_redox.Base.{ℕ, Text, true, false, [], ◌∷◌, ◌++◌, ok, ◌≡◌, refl, ◌∙◌, arith}
use nix_redox.Base.Slices.{has_byte, has_dots, ends_in, ends_in-append}
use nix_redox.Base.FilePath.{join, is_absolute}
use nix_redox.Resolve.{sub_path, parse_scheme_path, to_filesystem_path}
use nix_redox.Resolve.Parsing.{IsName, parse_scheme_path-IsSubPath, parse_scheme_path_name}

join_relative :
    (c : ℕ) (base path : Text)
    → ends_in b'/' (c ∷ base) ≡ false
    → is_absolute path ≡ false
    → join (c ∷ base) path ≡ (c ∷ base) ++ (b'/' ∷ path)
unfolding join
join_relative c base path e a = rw (a, join) (rw (e, join))

join_absolute : (base path : Text) → is_absolute path ≡ true → join base path ≡ path
unfolding join
join_absolute base path a = rw (a, join)

name_relative : (name : Text) → IsName name → has_byte b'/' name ≡ false → is_absolute name ≡ false
unfolding is_absolute has_byte
name_relative [] n h = refl
name_relative (x ∷ name) n h = ground arith

name_open : (name : Text) → has_byte b'/' name ≡ false → ends_in b'/' name ≡ false
unfolding ends_in has_byte
name_open [] h = refl
name_open (x ∷ []) h = ground arith
name_open (x ∷ (y ∷ name)) h = name_open (y ∷ name) (ground arith)

-- A path that is accepted and whose subpath does not begin with a slash leads below its own store
-- path, for a store directory that is written without a slash at its end.
pub to_filesystem_path_below :
    (path name sub store : Text) (c : ℕ)
    → parse_scheme_path path ≡ ok (sub_path name sub)
    → is_absolute sub ≡ false
    → ends_in b'/' (c ∷ store) ≡ false
    → to_filesystem_path (sub_path name sub) (c ∷ store)
      ≡ ((c ∷ store) ++ (b'/' ∷ name)) ++ (b'/' ∷ sub)
unfolding to_filesystem_path
to_filesystem_path_below path name sub store c h a e =
    let s = parse_scheme_path-IsSubPath path name sub h in below name s.is_name s.one_component
  where
    below :
        (n : Text)
        → IsName n
        → has_byte b'/' n ≡ false
        → join (join (c ∷ store) n) sub ≡ ((c ∷ store) ++ (b'/' ∷ n)) ++ (b'/' ∷ sub)
    below [] v b = absurd (omega (arith, v.long))
    below (x ∷ n) v b = rw (join_relative c store (x ∷ n) e (name_relative (x ∷ n) v b)) (
        join_relative c (store ++ (b'/' ∷ (x ∷ n))) sub
          (ends_in-append b'/' b'/' (c ∷ store) (x ∷ n) ∙ (unfold ends_in in name_open (x ∷ n) b))
          a)

-- A path with two slashes behind the store path name is accepted, and leads to what follows the
-- first of them as an absolute path, whatever the store directory is.
pub to_filesystem_path_escapes :
    (name rest store : Text)
    → IsName name
    → has_byte b'/' name ≡ false
    → has_dots (name ++ (b'/' ∷ (b'/' ∷ rest))) ≡ false
    → ends_in b'/' (b'/' ∷ rest) ≡ false
    → (parse_scheme_path (name ++ (b'/' ∷ (b'/' ∷ rest))) ≡ ok (sub_path name (b'/' ∷ rest)))
      × (to_filesystem_path (sub_path name (b'/' ∷ rest)) store ≡ b'/' ∷ rest)
unfolding to_filesystem_path
to_filesystem_path_escapes name rest store n h d e = (
  parse_scheme_path_name name rest b'/' n h d e,
  join_absolute (join store name) (b'/' ∷ rest) (unfold is_absolute in refl),
)
