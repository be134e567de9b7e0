-- ===== src/Flake.antt =====
-- Lock files of flakes: snix-redox/src/flake.rs. A lock file is what serde makes of it; of a node its
-- inputs and what it is locked to are kept.
mod Examples
pub mod Follows
use nix_redox.Base.{
  ℕ, zero, suc, Text, bytes, Bool, true, false, ◌||◌, Option, none, some, and_then, List, [], ◌∷◌,
  ◌++◌, Result, ok, err, ◌>>=◌, if◌then◌else◌,
}
use nix_redox.Base.Strings.{text_key, text_eq}
use nix_redox.Base.Slices.{is_empty, has_byte, split_once}
use nix_redox.Base.BTreeMap
use nix_redox.Base.BTreeMap.{BTreeMap}

pub record Installable : Type 0 where
  pub flake_dir : Text
  pub attr_path : Text

abbrev installable : Text × Text → Option Installable
installable (dir, attr) =
    if is_empty attr
    then none
    else some (record {
      flake_dir = if is_empty dir || text_eq dir (bytes ".") then bytes "." else dir;
      attr_path = attr;
    })

unfoldable pub parse_installable : Text → Option Installable
unfolding split_once
parse_installable s = and_then (split_once b'#' s) installable

unfoldable pub resolve_attr_path : Text → Text → Text
unfolding has_byte
resolve_attr_path attr system =
    if has_byte b'.' attr then attr else bytes "packages.\"" ++ (system ++ (bytes "\"." ++ attr))

pub record LockedRef : Type 0 where
  pub type_ : Text
  pub owner : Option Text
  pub repo : Option Text
  pub rev : Option Text
  pub nar_hash : Option Text
  pub host : Option Text
  pub ref_ : Option Text
  pub path : Option Text
  pub url : Option Text
  pub last_modified : Option ℕ

pub data InputRef : Type 0 where
  direct : Text → InputRef
  follows : List Text → InputRef

pub record LockNode : Type 0 where
  pub locked : Option LockedRef
  pub inputs : Option (BTreeMap Text InputRef)
  pub flake : Option Bool

pub record FlakeLock : Type 0 where
  pub version : ℕ
  pub root : Text
  pub nodes : BTreeMap Text LockNode

unfoldable pub is_flake : LockNode → Bool
is_flake node = elim node.flake [ none ↦ true | some b ↦ b ]

abbrev host_of : Option Text → Text
host_of none = bytes "gitlab.com"
host_of (some host) = host

abbrev github_url : Text → Text → Text → Text
github_url owner repo rev =
    bytes "https://github.com/"
    ++ (owner ++ (bytes "/" ++ (repo ++ (bytes "/archive/" ++ (rev ++ bytes ".tar.gz")))))

abbrev gitlab_url : Text → Text → Text → Text → Text
gitlab_url host owner repo rev =
    bytes "https://"
    ++ (host
        ++ (bytes "/"
            ++ (owner
                ++ (bytes "/"
                    ++ (repo
                        ++ (bytes "/-/archive/"
                            ++ (rev
                                ++ (bytes "/"
                                    ++ (repo ++ (bytes "-" ++ (rev ++ bytes ".tar.gz")))))))))))

unfoldable pub resolve_tarball_url : LockedRef → Option Text
resolve_tarball_url locked = and_then locked.rev (λ rev.
    if text_eq locked.type_ (bytes "github")
    then and_then locked.owner
        (λ owner. and_then locked.repo (λ repo. some (github_url owner repo rev)))
    else if text_eq locked.type_ (bytes "gitlab")
    then and_then locked.owner (λ owner.
      and_then locked.repo (λ repo. some (gitlab_url (host_of locked.host) owner repo rev)))
    else none)

pub data FlakeError : Type 0 where
  empty_chain root_not_found out_of_fuel : FlakeError
  node_not_found no_inputs input_not_found : Text → FlakeError

abbrev inputs_of : Text → Text → Option (BTreeMap Text InputRef) → Result FlakeError InputRef
inputs_of node step none = err (no_inputs node)
inputs_of node step (some inputs) = elim (BTreeMap.get step inputs) [
  | none ↦ err (input_not_found step)
  | some input ↦ ok input
]

-- The input of a node.
unfoldable pub input_of : FlakeLock → Text → Text → Result FlakeError InputRef
input_of lock node step = elim (BTreeMap.get node lock.nodes) [
  | none ↦ err (node_not_found node)
  | some n ↦ inputs_of node step n.inputs
]

-- The loop over the steps of a chain. `again` resolves the chain that an input follows.
unfoldable pub walk :
    FlakeLock → (List Text → Result FlakeError Text) → Text → List Text → Result FlakeError Text
unfolding input_of
walk lock again node [] = ok node
walk lock again node (step ∷ rest) = elim (input_of lock node step) [
  | err e ↦ err e
  | ok (direct target) ↦ walk lock again target rest
  | ok (follows chain) ↦ again chain
]

-- With at most `fuel` calls. The calls of the source may have no end.
unfoldable pub resolve_follows : ℕ → FlakeLock → List Text → Result FlakeError Text
unfolding walk
resolve_follows zero lock chain = err out_of_fuel
resolve_follows (suc fuel) lock [] = err empty_chain
resolve_follows (suc fuel) lock (first ∷ steps) = walk lock (resolve_follows fuel lock) first steps

abbrev input_node : ℕ → FlakeLock → InputRef → Result FlakeError Text
input_node fuel lock (direct target) = ok target
input_node fuel lock (follows chain) = resolve_follows fuel lock chain

unfoldable pub resolve_inputs :
    ℕ → FlakeLock → BTreeMap Text InputRef → Result FlakeError (BTreeMap Text Text)
unfolding resolve_follows
resolve_inputs fuel lock [] = ok []
resolve_inputs fuel lock ((name, input) ∷ rest) = input_node fuel lock input >>= λ node.
    resolve_inputs fuel lock rest >>= λ resolved. ok ((name, node) ∷ resolved)

abbrev root_inputs :
    ℕ → FlakeLock → Option (BTreeMap Text InputRef) → Result FlakeError (BTreeMap Text Text)
root_inputs fuel lock none = ok []
root_inputs fuel lock (some inputs) = resolve_inputs fuel lock inputs

unfoldable pub get_root_inputs : ℕ → FlakeLock → Result FlakeError (BTreeMap Text Text)
unfolding resolve_inputs
get_root_inputs fuel lock = elim (BTreeMap.get lock.root lock.nodes) [
  | none ↦ err root_not_found
  | some node ↦ root_inputs fuel lock node.inputs
]
