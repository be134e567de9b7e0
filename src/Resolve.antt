-- ===== src/Resolve.antt =====
-- snix-redox/src/stored/resolve.rs: paths of the `store:` scheme. A text is its UTF-8 bytes;
-- `panic` stands for the slice `&name[..32]` that does not end at a character.
mod Examples
pub mod Parsing
pub mod Containment
use nix_redox.Base.{
  ℕ, ◌+◌, Text, bytes, Bool, true, false, not, ◌&&◌, ◌||◌, Option, none, some, List, [], ◌∷◌, ◌++◌,
  length, get_elem?, take, ltb, leb, ◌==◌, if◌then◌else◌, Result, ok, err, ◌>>=◌,
}
use nix_redox.Base.Strings.{text_key, text_lt}
use nix_redox.Base.Slices.{is_empty, trim, split_once, strip_prefix, has_dots}
use nix_redox.Base.FilePath.{join}
use nix_redox.Base.BTreeSet
use nix_redox.PathInfo
use nix_redox.PathInfo.{PathInfoDb, PathInfoError, list_paths}

pub data ResolvedPath : Type 0 where
  root : ResolvedPath
  store_path_root : Text → ResolvedPath
  sub_path : Text → Text → ResolvedPath

pub data ResolveError : Type 0 where
  invalid_hash not_registered not_found path_traversal : Text → ResolveError
  panic : ResolveError

unfoldable pub is_nixbase32 : ℕ → Bool
is_nixbase32 c =
    leb b'0' c && leb c b'9'
    || leb b'a' c && leb c b'd'
    || leb b'f' c && leb c b'n'
    || leb b'p' c && leb c b's'
    || leb b'v' c && leb c b'z'

unfoldable pub all_nixbase32 : Text → Bool
unfolding is_nixbase32
all_nixbase32 [] = true
all_nixbase32 (c ∷ rest) = is_nixbase32 c && all_nixbase32 rest

-- A byte in the middle of a character.
unfoldable pub is_continuation : ℕ → Bool
is_continuation c = leb 128 c && ltb c 192

unfoldable pub hash_part : Text → Text
hash_part name = take 32 name

unfoldable pub check_hash : Text → ℕ → Result ResolveError (Unit {0})
unfolding is_continuation all_nixbase32 hash_part
check_hash name c =
    if is_continuation c
    then err panic
    else if not (c == b'-')
    then err (invalid_hash name)
    else if all_nixbase32 (hash_part name)
    then ok tt
    else err (invalid_hash name)

unfoldable pub check_at : Text → Option ℕ → Result ResolveError (Unit {0})
unfolding check_hash
check_at name none = err panic
check_at name (some c) = check_hash name c

unfoldable pub validate_store_path_name : Text → Result ResolveError (Unit {0})
unfolding check_at
validate_store_path_name name =
    if ltb (length name) 34 then err (invalid_hash name) else check_at name (get_elem? name 32)

-- What follows the check of the name.
unfoldable pub finish : Text → Option Text → ResolvedPath
finish name none = store_path_root name
finish name (some []) = store_path_root name
finish name (some (c ∷ sub)) = sub_path name (c ∷ sub)

unfoldable pub parse_trimmed : Text → Result ResolveError ResolvedPath
unfolding finish
parse_trimmed path =
    if is_empty path
    then ok root
    else if has_dots path
    then err (path_traversal path)
    else elim (split_once b'/' path) [
      | none ↦ validate_store_path_name path >>= λ _. ok (finish path none)
      | some (name, sub) ↦ validate_store_path_name name >>= λ _. ok (finish name (some sub))
    ]

unfoldable pub parse_scheme_path : Text → Result ResolveError ResolvedPath
unfolding parse_trimmed
parse_scheme_path path = parse_trimmed (trim b'/' path)

-- The source's answer is never `None`.
unfoldable pub to_filesystem_path : ResolvedPath → Text → Text
to_filesystem_path root store_dir = store_dir
to_filesystem_path (store_path_root name) store_dir = join store_dir name
to_filesystem_path (sub_path name sub) store_dir = join (join store_dir name) sub

unfoldable pub is_registered : (Text → Option Text) → PathInfoDb → Text → Text → Bool
is_registered digest db name store_dir =
    PathInfo.is_registered digest db (store_dir ++ (b'/' ∷ name))

pub record StorePathStatus : Type 0 where
  pub name : Text
  pub extracted : Bool

-- `exists` is the file system.
status_of : (Text → Bool) → Text → Text → StorePathStatus
status_of exists prefix path = elim (strip_prefix prefix path) [
  | none ↦ record { name = path; extracted = exists path }
  | some name ↦ record { name = name; extracted = exists path }
]

statuses : (Text → Bool) → Text → List Text → List StorePathStatus
statuses exists prefix [] = []
statuses exists prefix (path ∷ paths) = status_of exists prefix path ∷ statuses exists prefix paths

unfoldable pub insert_status : StorePathStatus → List StorePathStatus → List StorePathStatus
insert_status s [] = s ∷ []
insert_status s (t ∷ ts) =
    let rest = insert_status s ts in if text_lt t.name s.name then t ∷ rest else s ∷ (t ∷ ts)

-- `sort_by` name.
unfoldable pub sort_by_name : List StorePathStatus → List StorePathStatus
unfolding insert_status
sort_by_name [] = []
sort_by_name (s ∷ ss) = insert_status s (sort_by_name ss)

unfoldable pub list_store_paths :
    (Text → Bool) → PathInfoDb → Text → Result PathInfoError (List StorePathStatus)
unfolding status_of statuses sort_by_name
list_store_paths exists db store_dir =
    list_paths db >>= λ paths. ok (sort_by_name (statuses exists (store_dir ++ (b'/' ∷ [])) paths))
