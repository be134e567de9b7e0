-- ===== src/Base/FilePath.antt =====
-- `std::path` on Unix: `join` on the bytes of a path, and the components of a path.
use mathlib.Core.Bool.{Bool, true, false, ◌&&◌, ◌||◌}
use mathlib.Core.List.{List, [], ◌∷◌, ◌++◌}
use mathlib.Core.Option.{Option, none, some}
use Prim.Native.Nat.{ℕ}
use nix_redox.Base.Tests.{◌==◌, if◌then◌else◌}
use nix_redox.Base.Strings.{Text, text_eq, bytes}
use nix_redox.Base.Slices.{is_empty, ends_in}

unfoldable pub is_absolute : Text → Bool
is_absolute [] = false
is_absolute (x ∷ s) = x == b'/'

-- `PathBuf::join`: an absolute path takes the place of the base.
unfoldable pub join : Text → Text → Text
unfolding is_absolute ends_in
join base path =
    if is_absolute path
    then path
    else if is_empty base || ends_in b'/' base
    then base ++ path
    else base ++ (b'/' ∷ path)

-- `std::path::Component`
pub data Component : Type 0 where
  root_dir cur_dir parent_dir : Component
  normal : Text → Component

abbrev pub same_component : Component → Component → Bool
same_component root_dir root_dir = true
same_component cur_dir cur_dir = true
same_component parent_dir parent_dir = true
same_component (normal a) (normal b) = text_eq a b
same_component _ _ = false

abbrev pub push_byte : ℕ → List Text → List Text
push_byte x [] = (x ∷ []) ∷ []
push_byte x (s ∷ ss) = (x ∷ s) ∷ ss

-- The segments between the slashes, empty ones included.
unfoldable pub segments : Text → List Text
segments [] = [] ∷ []
segments (x ∷ xs) = let rest = segments xs in if x == b'/' then [] ∷ rest else push_byte x rest

unfoldable pub segment_components : List Text → List Component
segment_components [] = []
segment_components (s ∷ ss) =
    let rest = segment_components ss in
    if is_empty s || text_eq s (bytes ".")
    then rest
    else if text_eq s (bytes "..")
    then parent_dir ∷ rest
    else normal s ∷ rest

abbrev pub leading : List Text → List Component
leading [] = []
leading (s ∷ ss) =
    if text_eq s (bytes ".") then cur_dir ∷ segment_components ss else segment_components (s ∷ ss)

-- `Path::components`: repeated slashes and inner single dots vanish.
unfoldable pub components : Text → List Component
unfolding is_absolute segments segment_components
components path =
    if is_absolute path
    then root_dir ∷ segment_components (segments path)
    else leading (segments path)

-- `PathBuf::pop`, `PathBuf::push` and `Path::starts_with` on components.
unfoldable pub pop : List Component → List Component
pop [] = []
pop (root_dir ∷ []) = root_dir ∷ []
pop (c ∷ []) = []
pop (c ∷ (d ∷ rest)) = c ∷ pop (d ∷ rest)

unfoldable pub push : List Component → Component → List Component
push path root_dir = root_dir ∷ []
push path c = path ++ (c ∷ [])

unfoldable pub is_prefix : List Component → List Component → Bool
is_prefix [] path = true
is_prefix (c ∷ cs) [] = false
is_prefix (c ∷ cs) (d ∷ ds) = same_component c d && is_prefix cs ds

unfoldable pub same_path : List Component → List Component → Bool
same_path [] [] = true
same_path [] (d ∷ ds) = false
same_path (c ∷ cs) [] = false
same_path (c ∷ cs) (d ∷ ds) = same_component c d && same_path cs ds

unfoldable pub file_name : List Component → Option Text
file_name [] = none
file_name (normal n ∷ []) = some n
file_name (c ∷ []) = none
file_name (c ∷ (d ∷ rest)) = file_name (d ∷ rest)
