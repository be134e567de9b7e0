-- ===== src/AllowList.antt =====
-- snix-redox/src/build_proxy/allow_list.rs: what a builder may read and write. A path is its list
-- of components, the two hash sets are lists in no particular order.
mod Examples
pub mod Cleaning
pub mod Checks
pub mod Building
use nix_redox.Base.{
  ℕ, ◌+◌, Text, bytes, Bool, true, false, not, ◌&&◌, ◌||◌, Option, none, some, List, [], ◌∷◌, ◌++◌,
  ◌==◌, if◌then◌else◌,
}
use nix_redox.Base.Strings.{text_eq}
use nix_redox.Base.Slices.{is_empty, has_byte, trim_end, starts_with}
use nix_redox.Base.Words.{split_whitespace}
use nix_redox.Base.FilePath.{
  Component, root_dir, cur_dir, parent_dir, normal, components, pop, push, is_prefix, same_path,
  is_absolute, file_name,
}

abbrev pub FilePath : Type 0
FilePath = List Component

pub data Permission : Type 0 where
  denied read_only read_write : Permission

pub record AllowList : Type 0 where
  pub read_only_paths : List FilePath
  pub read_write_paths : List FilePath

abbrev pub empty : AllowList
empty = record { read_only_paths = []; read_write_paths = [] }

-- The loop of `clean_path`.
unfoldable pub clean_loop : FilePath → FilePath → FilePath
clean_loop result [] = result
clean_loop result (parent_dir ∷ rest) = clean_loop (pop result) rest
clean_loop result (cur_dir ∷ rest) = clean_loop result rest
clean_loop result (c ∷ rest) = clean_loop (push result c) rest

unfoldable pub clean_path : FilePath → FilePath
unfolding clean_loop
clean_path path = clean_loop [] path

unfoldable pub path_matches_prefix : FilePath → FilePath → Bool
path_matches_prefix path prefix =
    let clean = clean_path path in if same_path clean prefix then true else is_prefix prefix clean

-- The loops of `check`: some entry is a prefix.
unfoldable pub some_match : FilePath → List FilePath → Bool
some_match path [] = false
some_match path (entry ∷ entries) =
    let rest = some_match path entries in if path_matches_prefix path entry then true else rest

unfoldable pub check : AllowList → FilePath → Permission
check list path =
    if some_match path list.read_write_paths
    then read_write
    else if some_match path list.read_only_paths
    then read_only
    else denied

unfoldable pub can_read : AllowList → FilePath → Bool
can_read list path = elim (check list path) [ denied ↦ false | _ ↦ true ]

unfoldable pub can_write : AllowList → FilePath → Bool
can_write list path = elim (check list path) [ read_write ↦ true | _ ↦ false ]

unfoldable pub all_prefixes : AllowList → List FilePath
all_prefixes list = list.read_only_paths ++ list.read_write_paths

unfoldable pub normalize_path : Text → FilePath
normalize_path path =
    let trimmed = trim_end b'/' path in
    if is_empty trimmed then components (bytes "/") else components trimmed

abbrev pub insert_all : (Text → FilePath) → List Text → List FilePath → List FilePath
insert_all f [] s = s
insert_all f (p ∷ ps) s = insert_all f ps (f p ∷ s)

abbrev pub allow_read : FilePath → AllowList → AllowList
allow_read path list = record list { read_only_paths = path ∷ list.read_only_paths }

abbrev pub system_read_only_paths : List Text
system_read_only_paths =
    bytes "/nix/system/profile"
    ∷ (bytes "/nix/store"
        ∷ (bytes "/usr/lib"
            ∷ (bytes "/usr/src"
                ∷ (bytes "/lib" ∷ (bytes "/etc" ∷ (bytes "/bin" ∷ (bytes "/usr/bin" ∷ [])))))))

abbrev pub wrapper_log_paths : List Text
wrapper_log_paths =
    bytes "/tmp/.cc-wrapper-raw-args"
    ∷ (bytes "/tmp/.cc-wrapper-stderr"
        ∷ (bytes "/tmp/.cc-wrapper-shared-cmd" ∷ (bytes "/tmp/.cc-wrapper-last-err" ∷ [])))

abbrev pub device_paths : List Text
device_paths = bytes "/dev/null" ∷ (bytes "/dev/zero" ∷ (bytes "/dev/tty" ∷ []))

abbrev pub random_paths : List Text
random_paths = bytes "/dev/urandom" ∷ (bytes "/dev/random" ∷ [])

-- The punctuation that is trimmed off a token.
unfoldable pub is_quote : ℕ → Bool
is_quote c =
    c == 39
    || c == 34
    || c == b';'
    || c == b'('
    || c == b')'
    || c == b'['
    || c == b']'
    || c == b'{'
    || c == b'}'
    || c == b','

unfoldable pub trim_quotes_start : Text → Text
unfolding is_quote
trim_quotes_start [] = []
trim_quotes_start (c ∷ rest) =
    let shorter = trim_quotes_start rest in if is_quote c then shorter else c ∷ rest

unfoldable pub trim_quotes_end : Text → Text
unfolding is_quote
trim_quotes_end [] = []
trim_quotes_end (c ∷ rest) =
    let shorter = trim_quotes_end rest in if is_quote c && is_empty shorter then [] else c ∷ shorter

unfoldable pub looks_like_file : FilePath → Bool
looks_like_file path = elim (file_name path) [ none ↦ false | some name ↦ has_byte b'.' name ]

-- The body of the loop of `add_arg_paths`.
unfoldable pub add_token : AllowList → Text → AllowList
unfolding trim_quotes_start trim_quotes_end looks_like_file is_absolute
add_token list token =
    let trimmed = trim_quotes_end (trim_quotes_start token) in
    let with_path = allow_read (normalize_path trimmed) list in
    if not (is_absolute trimmed)
    then list
    else if starts_with (bytes "/usr/src/") trimmed && looks_like_file (components trimmed)
    then allow_read (pop (components trimmed)) with_path
    else with_path

unfoldable pub add_tokens : AllowList → List Text → AllowList
unfolding add_token
add_tokens list [] = list
add_tokens list (t ∷ ts) = add_tokens (add_token list t) ts

unfoldable pub add_arg_paths : AllowList → Text → AllowList
unfolding add_tokens
add_arg_paths list arg = add_tokens list (split_whitespace arg)

unfoldable pub add_args : AllowList → List Text → AllowList
unfolding add_arg_paths
add_args list [] = list
add_args list (arg ∷ args) = add_args (add_arg_paths list arg) args

-- What `from_utf8` makes of an environment value.
pub data EnvValue : Type 0 where
  text : Text → EnvValue
  binary : EnvValue

unfoldable pub add_value : AllowList → EnvValue → AllowList
unfolding is_absolute
add_value list binary = list
add_value list (text s) =
    if is_absolute s && not (has_byte 32 s) then allow_read (normalize_path s) list else list

unfoldable pub add_environment : AllowList → List (Text × EnvValue) → AllowList
unfolding add_value
add_environment list [] = list
add_environment list ((key, val) ∷ rest) =
    add_environment (if text_eq key (bytes "out") then list else add_value list val) rest

-- The parts of nix-compat's `Derivation` that are read; an input derivation names its outputs.
pub record Derivation : Type 0 where
  pub builder : Text
  pub arguments : List Text
  pub environment : List (Text × EnvValue)
  pub input_sources : List Text
  pub input_derivations : List (Text × List Text)

unfoldable pub add_outputs : (Text → Option Text) → AllowList → List Text → AllowList
add_outputs output_path list [] = list
add_outputs output_path list (name ∷ names) =
    add_outputs output_path
      (elim (output_path name) [ none ↦ list | some path ↦ allow_read (normalize_path path) list ])
      names

-- `known_paths`: the outputs with a path of a known derivation.
unfoldable pub add_inputs :
    (Text → Option (Text → Option Text)) → AllowList → List (Text × List Text) → AllowList
unfolding add_outputs
add_inputs known_paths list [] = list
add_inputs known_paths list ((drv, names) ∷ rest) =
    add_inputs known_paths
      (elim (known_paths drv) [
        | none ↦ list
        | some output_path ↦ add_outputs output_path list names
      ])
      rest

unfoldable pub fixed_list : Text → Text → AllowList
fixed_list output_dir tmp_dir = record {
  read_write_paths = insert_all normalize_path device_paths (
      insert_all normalize_path wrapper_log_paths
        (normalize_path tmp_dir ∷ (normalize_path output_dir ∷ [])));
  read_only_paths =
      insert_all normalize_path system_read_only_paths (insert_all normalize_path random_paths []);
}

unfoldable pub add_builder : AllowList → Text → AllowList
add_builder list builder =
    if is_empty builder then list else allow_read (normalize_path builder) list

unfoldable pub add_sources : AllowList → List Text → AllowList
add_sources list [] = list
add_sources list (s ∷ ss) = add_sources (allow_read (normalize_path s) list) ss

unfoldable pub build_allow_list :
    Derivation → (Text → Option (Text → Option Text)) → Text → Text → AllowList
unfolding fixed_list add_builder add_args add_environment add_sources add_inputs
build_allow_list drv known_paths output_dir tmp_dir =
    let list = add_builder (fixed_list output_dir tmp_dir) drv.builder in
    let list' = add_environment (add_args list drv.arguments) drv.environment in
    add_inputs known_paths (add_sources list' drv.input_sources) drv.input_derivations
