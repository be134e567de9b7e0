-- ===== src/Activation/Files/Containment.antt =====
-- A managed file lies below the root.
use nix_redox.Base.{
  ℕ, ◌==◌, Text, bytes, false, ◌||◌, List, [], ◌∷◌, ◌++◌, All, Result, ok, ◌>>=◌, if◌then◌else◌,
  ◌≡◌, refl, sym, ap, ◌∙◌, arith, Bool-cases, Result-cases, inl, inr,
}
use mathlib.Core.List.{append_assoc, append-nil}
use nix_redox.Base.Strings.{text_eq}
use nix_redox.Base.Slices.{is_empty, has_byte, ends_in, ends_in-append}
use nix_redox.Base.FilePath.{
  Component, normal, root_dir, cur_dir, parent_dir, components, segments, segment_components,
  leading, push_byte, join, is_absolute,
}
use nix_redox.Activation.Files.{
  FileError, push_components, checked, validate_managed_relative_path, managed_file_path_at,
}

-- The name of a file or directory: not empty, no slash in it, and neither of the dots.
pub record IsProper (part : Text) : Type 0 where
  pub named : is_empty part ≡ false
  pub no_slash : has_byte b'/' part ≡ false
  pub no_dot : text_eq part (bytes ".") ≡ false
  pub no_dots : text_eq part (bytes "..") ≡ false

-- The parts, each behind a slash.
pub tails : List Text → Text
tails [] = []
tails (part ∷ parts) = b'/' ∷ (part ++ tails parts)

abbrev IsPart : Component → Type 0
IsPart (normal part) = IsProper part
IsPart c = Unit

no_slash-push_byte :
    (x : ℕ) (ss : List Text)
    → (x == b'/') ≡ false
    → All (λ s. has_byte b'/' s ≡ false) ss
    → All (λ s. has_byte b'/' s ≡ false) (push_byte x ss)
unfolding has_byte
no_slash-push_byte x [] n a = (ground arith, tt)
no_slash-push_byte x (s ∷ ss) n (h, a) = (ground arith, a)

no_slash-segments : (path : Text) → All (λ s. has_byte b'/' s ≡ false) (segments path)
unfolding segments has_byte
no_slash-segments [] = (refl, tt)
no_slash-segments (x ∷ xs) = elim (Bool-cases (x == b'/')) [
  | inl y ↦ rw (y) (refl, no_slash-segments xs)
  | inr n ↦ rw (n) (no_slash-push_byte x (segments xs) n (no_slash-segments xs))
]

IsPart-segments :
    (ss : List Text) → All (λ s. has_byte b'/' s ≡ false) ss → All IsPart (segment_components ss)
unfolding segment_components
IsPart-segments [] a = tt
IsPart-segments (s ∷ ss) (h, a) = elim (Bool-cases (is_empty s || text_eq s (bytes "."))) [
  | inl y ↦ rw (y) (IsPart-segments ss a)
  | inr n ↦ elim (Bool-cases (text_eq s (bytes ".."))) [
    | inl y ↦ rw (n, y) (tt, IsPart-segments ss a)
    | inr d ↦
        rw (n, d)
          (
            record { named = ground arith; no_slash = h; no_dot = ground arith; no_dots = d },
            IsPart-segments ss a,
          )
  ]
]

IsPart-leading : (ss : List Text) → All (λ s. has_byte b'/' s ≡ false) ss → All IsPart (leading ss)
IsPart-leading [] a = tt
IsPart-leading (s ∷ ss) (h, a) = elim (Bool-cases (text_eq s (bytes "."))) [
  | inl y ↦ rw (y) (tt, IsPart-segments ss a)
  | inr n ↦ rw (n) (IsPart-segments (s ∷ ss) (h, a))
]

IsPart-components : (path : Text) → All IsPart (components path)
unfolding components
IsPart-components path = elim (Bool-cases (is_absolute path)) [
  | inl y ↦ rw (components, y) (tt, IsPart-segments (segments path) (no_slash-segments path))
  | inr n ↦ rw (components, n) (IsPart-leading (segments path) (no_slash-segments path))
]

ends_in-no_slash : (s : Text) → has_byte b'/' s ≡ false → ends_in b'/' s ≡ false
unfolding ends_in has_byte
ends_in-no_slash [] h = refl
ends_in-no_slash (x ∷ []) h = ground arith
ends_in-no_slash (x ∷ y ∷ s) h = ends_in-no_slash (y ∷ s) (ground arith)

-- A path in front that further parts are joined to.
record IsFront (s : Text) : Type 0 where
  begun : is_empty s ≡ false
  open_ended : ends_in b'/' s ≡ false

IsFront-part : (part : Text) → IsProper part → IsFront part
IsFront-part part p = record { begun = p.named; open_ended = ends_in-no_slash part p.no_slash }

IsFront-append : (front part : Text) → IsProper part → IsFront (front ++ (b'/' ∷ part))
unfolding ends_in
IsFront-append front [] p = absurd (ground (arith, p.named))
IsFront-append front (x ∷ part) p = record {
  begun = begun_append front;
  open_ended = ends_in-append b'/' b'/' front (x ∷ part) ∙ ends_in-no_slash (x ∷ part) p.no_slash;
}
  where
    begun_append : (front : Text) → is_empty (front ++ (b'/' ∷ (x ∷ part))) ≡ false
    begun_append [] = refl
    begun_append (y ∷ front) = refl

relative-part : (part : Text) → IsProper part → is_absolute part ≡ false
unfolding is_absolute has_byte
relative-part [] p = refl
relative-part (x ∷ part) p = ground (arith, p.no_slash)

join-front :
    (front part : Text) → IsFront front → IsProper part → join front part ≡ front ++ (b'/' ∷ part)
unfolding join
join-front front part f p = rw (relative-part part p, join, f.begun, f.open_ended) refl

join-first : (part : Text) → IsProper part → join [] part ≡ part
unfolding join
join-first part p = rw (relative-part part p, join) refl

pushed :
    (path front out : Text) (cs : List Component)
    → All IsPart cs
    → IsFront front
    → push_components path cs front ≡ ok out
    → (parts : List Text) × (All IsProper parts × (out ≡ front ++ tails parts))
unfolding push_components tails
pushed path front out [] a f e = ([], (tt, ok-injective e ∙ sym (append-nil front)))
  where
    ok-injective : {x y : Text} → ◌≡◌ {A = Result FileError Text} (ok x) (ok y) → y ≡ x
    ok-injective h = ground (arith, h)
pushed path front out (root_dir ∷ cs) a f e = absurd (ground arith)
pushed path front out (cur_dir ∷ cs) a f e = absurd (ground arith)
pushed path front out (parent_dir ∷ cs) a f e = absurd (ground arith)
pushed path front out (normal part ∷ cs) (p, a) f e =
    let (parts, (proper, q)) =
      pushed path (front ++ (b'/' ∷ part)) out cs a (IsFront-append front part p)
        (rw (join-front front part f p) at e) in
    (part ∷ parts, ((p, proper), q ∙ append_assoc front (b'/' ∷ part) (tails parts)))

-- What a check answers: the parts of a path, with slashes between them.
record Checked (relative : Text) : Type 0 where
  part : Text
  parts : List Text
  proper : All IsProper (part ∷ parts)
  made : relative ≡ part ++ tails parts

checked-ok : (out relative : Text) → checked out ≡ ok relative → relative ≡ out
checked-ok out relative e = ground arith

first_pushed :
    (path relative : Text) (cs : List Component)
    → All IsPart cs
    → (push_components path cs [] >>= checked) ≡ ok relative
    → Checked relative
unfolding push_components
first_pushed path relative [] a e = absurd (ground arith)
first_pushed path relative (root_dir ∷ cs) a e = absurd (ground arith)
first_pushed path relative (cur_dir ∷ cs) a e = absurd (ground arith)
first_pushed path relative (parent_dir ∷ cs) a e = absurd (ground arith)
first_pushed path relative (normal part ∷ cs) (p, a) e =
    elim (Result-cases (push_components path cs (join [] part))) [
      | inr (x, r) ↦ absurd (ground arith)
      | inl (out, r) ↦
          let (parts, (proper, q)) =
            pushed path part out cs a (IsFront-part part p) (rw (join-first part p) at r) in
          record {
            part = part;
            parts = parts;
            proper = (p, proper);
            made = checked-ok out relative (rw (r) at e) ∙ q;
          }
    ]

validated :
    (path relative : Text) → validate_managed_relative_path path ≡ ok relative → Checked relative
unfolding validate_managed_relative_path
validated path relative e = first_pushed path relative (components path) (IsPart-components path) e

-- The root with a slash at its end, where it is not empty.
abbrev pub slashed : Text → Text
slashed root = if is_empty root || ends_in b'/' root then root else root ++ (b'/' ∷ [])

relative-tails :
    (part : Text) (parts : List Text) → IsProper part → is_absolute (part ++ tails parts) ≡ false
unfolding is_absolute has_byte
relative-tails [] parts p = absurd (ground (arith, p.named))
relative-tails (x ∷ part) parts p = ground (arith, p.no_slash)

join-slashed : (root s : Text) → is_absolute s ≡ false → join root s ≡ slashed root ++ s
unfolding join
join-slashed root s h = elim (Bool-cases (is_empty root || ends_in b'/' root)) [
  | inl y ↦ rw (h, join, y) refl
  | inr n ↦ rw (h, join, n) (sym (append_assoc root (b'/' ∷ []) s))
]

-- A managed file whose path is accepted lies below the root: its path is that of the root, followed by
-- one name or more with slashes between them, none of which is empty, has a slash in it, or is one of
-- the dots.
pub managed_file_path_at_below :
    (root path file : Text)
    → managed_file_path_at root path ≡ ok file
    → (part : Text) × ((parts : List Text) × (All IsProper (part ∷ parts)
          × (file ≡ slashed root ++ (part ++ tails parts))))
unfolding managed_file_path_at
managed_file_path_at_below root path file e =
    elim (Result-cases (validate_managed_relative_path path)) [
      | inr (x, r) ↦ absurd (ground arith)
      | inl (relative, r) ↦
          let c = validated path relative r in
          let joined : file ≡ join root relative = ground arith in
          (
            c.part,
            (
              c.parts,
              (
                c.proper,
                joined
                    ∙ ap (join root) c.made
                    ∙ join-slashed root (c.part ++ tails c.parts)
                        (relative-tails c.part c.parts c.proper.0),
              ),
            ),
          )
    ]
