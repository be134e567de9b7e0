-- ===== src/System/Roots/Names.antt =====
-- The roots of a generation are told apart from those of all others by their names.
use nix_redox.Base.{
  ℕ, Text, bytes, true, Option, none, some, [], ◌∷◌, ◌++◌, ◌≡◌, refl, sym, ap, ◌∙◌, arith,
  Option-cases, inl, inr,
}
use mathlib.Core.List.{append_assoc}
use nix_redox.Base.Slices.{
  strip_prefix, strip_prefix-some, strip_prefix-append, starts_with, split_once, split_once-append,
}
use nix_redox.Base.Decimal.{to_decimal, to_decimal-injective, has_byte-to_decimal}
use nix_redox.System.Roots.{root_prefix, root_name}

-- What stands behind "gen-" up to the next dash.
number_of : Text → Option Text
number_of s = elim (strip_prefix (bytes "gen-") s) [
  | none ↦ none
  | some rest ↦ elim (split_once b'-' rest) [ none ↦ none | some (number, name) ↦ some number ]
]

number_of-append :
    (id : ℕ) (rest : Text) → number_of (root_prefix id ++ rest) ≡ some (to_decimal id)
unfolding number_of root_prefix
number_of-append id rest =
    rw
      (
        append_assoc (bytes "gen-") (to_decimal id ++ (b'-' ∷ [])) rest,
        number_of,
        strip_prefix-append (bytes "gen-") ((to_decimal id ++ (b'-' ∷ [])) ++ rest),
        append_assoc (to_decimal id) (b'-' ∷ []) rest,
        split_once-append b'-' (to_decimal id) rest (has_byte-to_decimal b'-' id refl),
      )
      refl

starts_with-some : (p s : Text) → starts_with p s ≡ true → (rest : Text) × (s ≡ p ++ rest)
unfolding starts_with
starts_with-some p s h = elim (Option-cases (strip_prefix p s)) [
  | inl n ↦ absurd (ground arith)
  | inr (rest, e) ↦ (rest, strip_prefix-some p s rest e)
]

starts-append : (p rest : Text) → starts_with p (p ++ rest) ≡ true
unfolding starts_with
starts-append p rest = rw (starts_with, strip_prefix-append p rest) refl

pub root_name-own : (id : ℕ) (name : Text) → starts_with (root_prefix id) (root_name id name) ≡ true
unfolding root_name
root_name-own id name = starts-append (root_prefix id) name

-- A name with the prefixes of two generations: they are the same.
pub prefixes_apart :
    (a b : ℕ) (name : Text)
    → starts_with (root_prefix a) name ≡ true
    → starts_with (root_prefix b) name ≡ true
    → a ≡ b
prefixes_apart a b name h k =
    let (r, e) = starts_with-some (root_prefix a) name h in
    let (q, f) = starts_with-some (root_prefix b) name k in
    to_decimal-injective a b (
      some-injective (sym (number_of-append a r) ∙ ap number_of (sym e ∙ f) ∙ number_of-append b q))
  where
    some-injective : {x y : Text} → some x ≡ some y → x ≡ y
    some-injective h = ground (arith, h)
