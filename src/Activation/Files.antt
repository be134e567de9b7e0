-- ===== src/Activation/Files.antt =====
-- Managed files: the checks of snix-redox/src/activate.rs on their paths and modes.
pub mod Containment
use nix_redox.Base.{
  ℕ, ◌+◌, ◌-◌, ◌*◌, ltb, leb, Text, bytes, Bool, true, false, not, ◌&&◌, ◌||◌, Option, none, some,
  List, [], ◌∷◌, length, Result, ok, err, ◌>>=◌, if◌then◌else◌,
}
use nix_redox.Base.Slices.{is_empty, strip_prefix}
use nix_redox.Base.Words.{trim_white}
use nix_redox.Base.FilePath.{Component, normal, components, join}

pub data FileError : Type 0 where
  invalid_mode : Text → FileError
  not_relative : Text → FileError
  empty_path : FileError

abbrev or_same : Option Text → Text → Text
or_same none s = s
or_same (some rest) s = rest

-- A 0 is taken away where something is left.
abbrev strip_zero : Option Text → Text → Text
strip_zero none s = s
strip_zero (some []) s = s
strip_zero (some (x ∷ rest)) s = x ∷ rest

unfoldable pub all_octal : Text → Bool
all_octal [] = true
all_octal (c ∷ cs) = leb 48 c && leb c 55 && all_octal cs

-- `from_str_radix(s, 8)` of at most four digits.
unfoldable pub octal_value : ℕ → Text → ℕ
octal_value acc [] = acc
octal_value acc (c ∷ cs) = octal_value (acc * 8 + (c - 48)) cs

abbrev mode_of : Text → Text → Result FileError ℕ
mode_of mode trimmed =
    if is_empty trimmed || ltb 4 (length trimmed) || not (all_octal trimmed)
    then err (invalid_mode mode)
    else if ltb 4095 (octal_value 0 trimmed)
    then err (invalid_mode mode)
    else ok (octal_value 0 trimmed)

unfoldable pub parse_mode_string : Text → Result FileError ℕ
unfolding trim_white strip_prefix all_octal octal_value
parse_mode_string mode =
    let trimmed = trim_white mode in
    let digits = or_same (strip_prefix (bytes "0o") trimmed) trimmed in
    mode_of mode (strip_zero (strip_prefix (bytes "0") digits) digits)

unfoldable pub push_components : Text → List Component → Text → Result FileError Text
unfolding join
push_components path [] relative = ok relative
push_components path (normal part ∷ rest) relative = push_components path rest (join relative part)
push_components path (other ∷ rest) relative = err (not_relative path)

abbrev pub checked : Text → Result FileError Text
checked relative = if is_empty relative then err empty_path else ok relative

unfoldable pub validate_managed_relative_path : Text → Result FileError Text
unfolding push_components components
validate_managed_relative_path path = push_components path (components path) [] >>= checked

unfoldable pub managed_file_path_at : Text → Text → Result FileError Text
unfolding validate_managed_relative_path join
managed_file_path_at root path =
    validate_managed_relative_path path >>= λ relative. ok (join root relative)
