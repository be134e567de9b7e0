-- ===== src/Flake/Examples.antt =====
-- A lock file with two chains: one that leads to a node, one that follows itself.
use nix_redox.Base.{ℕ, arith, Text, bytes, none, some, [], ◌∷◌, ok, err, ◌≡◌, ◌↔◌, refl}
use nix_redox.Base.Strings.{text_key, text_eq}
use nix_redox.Base.BTreeMap
use nix_redox.Base.BTreeMap.{BTreeMap}
use nix_redox.Flake.{
  FlakeLock, LockNode, InputRef, direct, follows, out_of_fuel, input_of, resolve_follows,
}
use nix_redox.Flake.Follows.{LeadsTo, HasPairs, resolve_follows-LeadsTo, resolve_follows_endless}

abbrev with_inputs : BTreeMap Text InputRef → LockNode
with_inputs inputs = record { locked = none; inputs = some inputs; flake = none }

abbrev lock : FlakeLock
lock = record {
  version = 7;
  root = bytes "root";
  nodes =
      (bytes "a", with_inputs ((bytes "x", follows (bytes "b" ∷ bytes "y" ∷ [])) ∷ []))
      ∷ (bytes "b", with_inputs ((bytes "y", direct (bytes "c")) ∷ []))
      ∷ (bytes "e", with_inputs ((bytes "z", follows (bytes "e" ∷ bytes "z" ∷ [])) ∷ []))
      ∷ [];
}

-- The step `w` is not looked up: `c` is not even a node.
step_dropped : resolve_follows 9 lock (bytes "a" ∷ bytes "x" ∷ bytes "w" ∷ []) ≡ ok (bytes "c")
unfolding resolve_follows BTreeMap.get text_eq
step_dropped = refl

lock-HasPairs : HasPairs lock
unfolding input_of BTreeMap.get
lock-HasPairs node step first chain h = ground arith

resolve_follows-LeadsTo_example :
    ((fuel : ℕ) × (resolve_follows fuel lock (bytes "a" ∷ bytes "x" ∷ []) ≡ ok (bytes "c")))
    ↔ LeadsTo lock (bytes "a") (bytes "x" ∷ []) (bytes "c")
resolve_follows-LeadsTo_example =
    resolve_follows-LeadsTo lock (bytes "a") (bytes "x" ∷ []) (bytes "c") lock-HasPairs
      (omega arith)

follows_itself : input_of lock (bytes "e") (bytes "z") ≡ ok (follows (bytes "e" ∷ bytes "z" ∷ []))
unfolding input_of BTreeMap.get text_eq
follows_itself = refl

resolve_follows_endless_example :
    resolve_follows 20 lock (bytes "e" ∷ bytes "z" ∷ []) ≡ err out_of_fuel
resolve_follows_endless_example =
    resolve_follows_endless lock 20 (bytes "e") (bytes "z") [] follows_itself
