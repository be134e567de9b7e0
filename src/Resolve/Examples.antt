-- ===== src/Resolve/Examples.antt =====
-- Paths of the scheme, accepted and refused.
use nix_redox.Base.{Text, bytes, ◌∷◌, ◌++◌, ok, ◌≡◌, refl, arith}
use nix_redox.Base.Slices.{has_byte, has_dots, ends_in}
use nix_redox.Base.FilePath.{is_absolute}
use nix_redox.Resolve.{
  ResolvedPath, sub_path, path_traversal, parse_scheme_path, to_filesystem_path,
}
use nix_redox.Resolve.Parsing.{
  IsName, IsSubPath, parse_scheme_path-IsSubPath, parse_scheme_path_name,
}
use nix_redox.Resolve.Containment.{to_filesystem_path_below, to_filesystem_path_escapes}

abbrev name : Text
name = bytes "1b9p07z77phvv2hf6gm9f28syp39f1ag-sed"

name-IsName : IsName name
unfolding nix_redox.Resolve.all_nixbase32 nix_redox.Resolve.hash_part nix_redox.Resolve.is_nixbase32
name-IsName = record { long = ground arith; dash = refl; hash = refl }

accepted :
    parse_scheme_path (name ++ (b'/' ∷ bytes "bin/sed")) ≡ ok (sub_path name (bytes "bin/sed"))
unfolding has_byte has_dots ends_in
accepted = parse_scheme_path_name name (bytes "in/sed") b'b' name-IsName refl refl refl

parse_scheme_path-IsSubPath_example :
    IsSubPath (name ++ (b'/' ∷ bytes "bin/sed")) name (bytes "bin/sed")
parse_scheme_path-IsSubPath_example =
    parse_scheme_path-IsSubPath (name ++ (b'/' ∷ bytes "bin/sed")) name (bytes "bin/sed") accepted

to_filesystem_path_below_example :
    to_filesystem_path (sub_path name (bytes "bin/sed")) (bytes "/nix/store")
    ≡ (bytes "/nix/store" ++ (b'/' ∷ name)) ++ (b'/' ∷ bytes "bin/sed")
unfolding is_absolute ends_in
to_filesystem_path_below_example =
    to_filesystem_path_below (name ++ (b'/' ∷ bytes "bin/sed")) name (bytes "bin/sed")
      (bytes "nix/store") b'/' accepted refl refl

to_filesystem_path_escapes_example :
    (parse_scheme_path (name ++ (b'/' ∷ (b'/' ∷ bytes "etc/passwd")))
      ≡ ok (sub_path name (b'/' ∷ bytes "etc/passwd")))
    × (to_filesystem_path (sub_path name (b'/' ∷ bytes "etc/passwd")) (bytes "/nix/store")
        ≡ bytes "/etc/passwd")
unfolding has_byte has_dots ends_in
to_filesystem_path_escapes_example =
    to_filesystem_path_escapes name (bytes "etc/passwd") (bytes "/nix/store") name-IsName refl refl
      refl
