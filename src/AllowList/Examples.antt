-- ===== src/AllowList/Examples.antt =====
-- Verdicts of the sandbox of a small build.
use nix_redox.Base.{
  ℕ, Text, bytes, Bool, true, false, Option, none, some, List, [], ◌∷◌, ◌++◌, ◌≡◌, ◌↔◌, inl, inr,
  refl,
}
use nix_redox.Base.FilePath.{Component, root_dir, normal, parent_dir}
use nix_redox.AllowList.{
  FilePath, Permission, denied, read_only, read_write, AllowList, clean_path, path_matches_prefix,
  check, can_read, can_write, fixed_list, Derivation, build_allow_list,
}
use nix_redox.AllowList.Checks.{Covered, check_exact}
use nix_redox.AllowList.Building.{build_allow_list-can_write}

abbrev nix : Component
nix = normal (bytes "nix")

abbrev store : FilePath
store = root_dir ∷ nix ∷ normal (bytes "store") ∷ []

abbrev work : FilePath
work = root_dir ∷ normal (bytes "tmp") ∷ []

-- /tmp/../nix/store/etc
abbrev sneaky : FilePath
sneaky =
    root_dir
    ∷ normal (bytes "tmp")
    ∷ parent_dir
    ∷ nix
    ∷ normal (bytes "store")
    ∷ normal (bytes "etc")
    ∷ []

abbrev list : AllowList
list = record { read_only_paths = store ∷ []; read_write_paths = work ∷ [] }

check_exact_example :
    ((check list sneaky ≡ read_write) ↔ Covered (work ∷ []) sneaky)
    × ((check list sneaky ≡ read_only)
        ↔ ((¬ Covered (work ∷ []) sneaky) × Covered (store ∷ []) sneaky))
    × ((check list sneaky ≡ denied)
        ↔ ((¬ Covered (work ∷ []) sneaky) × (¬ Covered (store ∷ []) sneaky)))
check_exact_example = check_exact list sneaky

abbrev drv : Derivation
drv = record {
  builder = bytes "/nix/store/bash/bin/bash";
  arguments = bytes "-e" ∷ [];
  environment = [];
  input_sources = [];
  input_derivations = [];
}

abbrev unknown : Text → Option (Text → Option Text)
unknown path = none

build_allow_list-can_write_example :
    (can_write (build_allow_list drv unknown (bytes "/nix/store/out") (bytes "/tmp/build")) sneaky
      ≡ true)
    ↔ Covered (fixed_list (bytes "/nix/store/out") (bytes "/tmp/build")).read_write_paths sneaky
build_allow_list-can_write_example =
    build_allow_list-can_write drv unknown (bytes "/nix/store/out") (bytes "/tmp/build") sneaky

tools-Covered :
    Covered (fixed_list (bytes "/nix/store/out") (bytes "/tmp/build")).read_only_paths sneaky
unfolding clean_path nix_redox.AllowList.clean_loop nix_redox.AllowList.normalize_path fixed_list
    nix_redox.Base.FilePath.components nix_redox.Base.FilePath.segments
    nix_redox.Base.FilePath.segment_components nix_redox.Base.Slices.trim_end
    nix_redox.Base.FilePath.push nix_redox.Base.FilePath.pop nix_redox.Base.FilePath.is_absolute
    nix_redox.Base.Strings.text_eq
tools-Covered = record {
  entry = store;
  listed = inr (inr (inr (inr (inr (inr (inl refl))))));
  rest = normal (bytes "etc") ∷ [];
  below = refl;
}
