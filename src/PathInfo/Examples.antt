-- ===== src/PathInfo/Examples.antt =====
-- A database of one path, and a registration into it.
use nix_redox.Base.{
  ℕ, Text, bytes, Bool, true, false, Option, none, some, List, [], ◌∷◌, Result, ok, err,
  if◌then◌else◌, ◌≡◌, refl,
}
use nix_redox.Base.Strings.{text_key, text_eq}
use nix_redox.Base.BTreeMap
use nix_redox.Base.BTreeSet
use nix_redox.PathInfo.{PathInfo, PathInfoDb, InfoFile, valid, get, register, delete, all_paths_set}
use nix_redox.PathInfo.Keyed.{IsKeyed, register-IsKeyed}

abbrev first_byte : Text → Option Text
first_byte [] = none
first_byte (c ∷ cs) = some (c ∷ [])

abbrev sed_path : Text
sed_path = bytes "s-sed"

abbrev rg_path : Text
rg_path = bytes "r-rg"

abbrev info_of : Text → PathInfo
info_of path = record {
  store_path = path;
  nar_hash = [];
  nar_size = 10;
  references = [];
  deriver = none;
  registration_time = [];
  signatures = [];
  files = [];
}

abbrev one : PathInfoDb
one = record { stored = (b's' ∷ [], valid (info_of sed_path)) ∷ []; writable = true }

abbrev two : PathInfoDb
two = record {
  stored = (b'r' ∷ [], valid (info_of rg_path)) ∷ (b's' ∷ [], valid (info_of sed_path)) ∷ [];
  writable = true;
}

one-IsKeyed : IsKeyed first_byte one
one-IsKeyed = record { ordered = (tt, tt); named = (refl, tt) }

registered : register first_byte one (info_of rg_path) ≡ ok two
unfolding register nix_redox.PathInfo.store_path_hash BTreeMap.insert text_eq
    nix_redox.Base.Strings.text_lt
registered = refl

deleted : delete first_byte two rg_path ≡ ok one
unfolding delete nix_redox.PathInfo.store_path_hash BTreeMap.remove BTreeMap.contains_key
    BTreeMap.get text_eq
deleted = refl

listed : all_paths_set one ≡ ok (sed_path ∷ [])
unfolding all_paths_set nix_redox.PathInfo.list_paths BTreeSet.extend BTreeSet.insert BTreeSet.sort
listed = refl

sed_listed : BTreeSet.contains sed_path (sed_path ∷ []) ≡ true
unfolding BTreeSet.contains text_eq
sed_listed = refl

register-IsKeyed_example : IsKeyed first_byte two
register-IsKeyed_example =
    register-IsKeyed first_byte one two (info_of rg_path) one-IsKeyed registered

two-IsKeyed : IsKeyed first_byte two
two-IsKeyed = register-IsKeyed first_byte one two (info_of rg_path) one-IsKeyed registered
