-- ===== src/Base/Slices.antt =====
-- Operations of `str` on the bytes of paths: trimming, splitting at a byte, prefixes, substrings.
use mathlib.Core.Path.{◌≡◌, refl}
use mathlib.Core.Logic.{inl, inr}
use mathlib.Core.Bool.{Bool, true, false, ◌&&◌, ◌||◌}
use mathlib.Core.Option.{Option, none, some}
use mathlib.Core.List.{List, [], ◌∷◌, ◌++◌}
use native.Mathlib.Omega.{arith}
use Prim.Native.Nat.{ℕ}
use nix_redox.Base.Tests.{◌==◌, if◌then◌else◌, Bool-cases, Option-cases}
use nix_redox.Base.Strings.{Text}

abbrev pub is_empty {ℓ} : {A : Type ℓ} → List A → Bool
is_empty [] = true
is_empty (x ∷ xs) = false

-- `contains` of a byte.
unfoldable pub has_byte : ℕ → Text → Bool
has_byte c [] = false
has_byte c (x ∷ xs) = x == c || has_byte c xs

-- `trim_start_matches`, `trim_end_matches` and `trim_matches` of a byte.
unfoldable pub trim_start : ℕ → Text → Text
trim_start c [] = []
trim_start c (x ∷ xs) = let rest = trim_start c xs in if x == c then rest else x ∷ xs

unfoldable pub trim_end : ℕ → Text → Text
trim_end c [] = []
trim_end c (x ∷ xs) = let rest = trim_end c xs in if x == c && is_empty rest then [] else x ∷ rest

unfoldable pub trim : ℕ → Text → Text
trim c s = trim_end c (trim_start c s)

abbrev push_front : ℕ → Option (Text × Text) → Option (Text × Text)
push_front x none = none
push_front x (some (before, after)) = some (x ∷ before, after)

-- `find` of a byte, with the text before it and the text behind it.
unfoldable pub split_once : ℕ → Text → Option (Text × Text)
split_once c [] = none
split_once c (x ∷ xs) =
    let rest = push_front x (split_once c xs) in if x == c then some ([], xs) else rest

-- `strip_prefix`
unfoldable pub strip_prefix : Text → Text → Option Text
strip_prefix [] s = some s
strip_prefix (p ∷ ps) [] = none
strip_prefix (p ∷ ps) (x ∷ xs) = let rest = strip_prefix ps xs in if p == x then rest else none

unfoldable pub starts_with : Text → Text → Bool
starts_with p s = elim (strip_prefix p s) [ none ↦ false | some rest ↦ true ]

-- `contains("..")`
unfoldable pub has_dots : Text → Bool
has_dots [] = false
has_dots (x ∷ []) = false
has_dots (x ∷ (y ∷ s)) = x == b'.' && y == b'.' || has_dots (y ∷ s)

some-pair :
    (a b c d : Text)
    → ◌≡◌ {A = Option (Text × Text)} (some (a, b)) (some (c, d))
    → (a ≡ c) × (b ≡ d)
some-pair a b c d e = ground arith

-- What `split_once` returns, put together again, with no separator before the first.
pub split_once-some :
    (c : ℕ) (s before after : Text)
    → split_once c s ≡ some (before, after)
    → (s ≡ before ++ (c ∷ after)) × (has_byte c before ≡ false)
unfolding split_once has_byte
split_once-some c [] before after e = absurd (ground arith)
split_once-some c (x ∷ xs) before after e = elim (Bool-cases (x == c)) [
  | inl h ↦
      let parts : ([] ≡ before) × (xs ≡ after) = some-pair _ _ _ _ (rw h at e) in
      rw (← parts.0) (ground arith)
  | inr h ↦ elim (Option-cases (split_once c xs)) [
    | inl n ↦ absurd (ground arith)
    | inr ((b, a), r) ↦
        let parts : ((x ∷ b) ≡ before) × (a ≡ after) = some-pair _ _ _ _ (rw (h, r) at e) in
        rw (← parts.0) (ground (arith, split_once-some c xs b a r))
  ]
]

pub split_once-none : (c : ℕ) (s : Text) → split_once c s ≡ none → has_byte c s ≡ false
unfolding split_once has_byte
split_once-none c [] e = refl
split_once-none c (x ∷ xs) e = ground (arith, split_once-none c xs)

pub split_once-append :
    (c : ℕ) (before after : Text)
    → has_byte c before ≡ false
    → split_once c (before ++ (c ∷ after)) ≡ some (before, after)
unfolding split_once has_byte
split_once-append c [] after h = ground arith
split_once-append c (x ∷ xs) after h = ground (arith, split_once-append c xs after)

pub strip_prefix-some : (p s rest : Text) → strip_prefix p s ≡ some rest → s ≡ p ++ rest
unfolding strip_prefix
strip_prefix-some [] s rest e = ground arith
strip_prefix-some (p ∷ ps) [] rest e = cc
strip_prefix-some (p ∷ ps) (x ∷ xs) rest e = ground (arith, strip_prefix-some ps xs rest)

pub strip_prefix-append : (p rest : Text) → strip_prefix p (p ++ rest) ≡ some rest
unfolding strip_prefix
strip_prefix-append [] rest = refl
strip_prefix-append (p ∷ ps) rest = ground (arith, strip_prefix-append ps rest)

-- A text that neither begins nor ends with the byte is left as it is.
pub trim_start-id : (c x : ℕ) (s : Text) → (x == c) ≡ false → trim_start c (x ∷ s) ≡ x ∷ s
unfolding trim_start
trim_start-id c x s h = rw h

unfoldable pub ends_in : ℕ → Text → Bool
ends_in c [] = false
ends_in c (x ∷ []) = x == c
ends_in c (x ∷ (y ∷ s)) = ends_in c (y ∷ s)

pub trim_end-id : (c : ℕ) (s : Text) → ends_in c s ≡ false → trim_end c s ≡ s
unfolding trim_end ends_in
trim_end-id c [] h = refl
trim_end-id c (x ∷ []) h = ground arith
trim_end-id c (x ∷ (y ∷ s)) h = rw (trim_end-id c (y ∷ s) h) (ground arith)

pub ends_in-append : (c x : ℕ) (s t : Text) → ends_in c (s ++ (x ∷ t)) ≡ ends_in c (x ∷ t)
unfolding ends_in
ends_in-append c x [] t = refl
ends_in-append c x (y ∷ []) t = refl
ends_in-append c x (y ∷ (z ∷ s)) t = ends_in-append c x (z ∷ s) t
