-- ===== src/Activation/Order.antt =====
-- `topo_sort` of snix-redox/src/activate.rs: the order of the activation scripts by their dependencies.
use nix_redox.Base.{
  ℕ, zero, suc, ◌+◌, ◌-◌, ◌==◌, Text, Bool, not, Option, none, some, List, [], ◌∷◌, ◌++◌, length,
  Result, ok, err, if◌then◌else◌,
}
use nix_redox.Base.Strings.{text_key}
use nix_redox.Base.BTreeMap
use nix_redox.Base.BTreeMap.{BTreeMap}
use nix_redox.Base.BTreeSet
use nix_redox.System.{ActivationScript}

unfoldable pub script_names : List ActivationScript → List Text
script_names [] = []
script_names (s ∷ rest) = s.name ∷ script_names rest

-- Whether every dependency of every script is the name of one.
unfoldable pub unknown_dep : List Text → List Text → Option Text
unknown_dep names [] = none
unknown_dep names (dep ∷ deps) =
    let rest = unknown_dep names deps in if BTreeSet.contains dep names then rest else some dep

unfoldable pub unknown_script : List Text → List ActivationScript → Option (Text × Text)
unfolding unknown_dep
unknown_script names [] = none
unknown_script names (s ∷ rest) = elim (unknown_dep names s.deps) [
  | some dep ↦ some (s.name, dep)
  | none ↦ unknown_script names rest
]

-- What an entry holds, or the default.
abbrev or_zero : Option ℕ → ℕ
or_zero none = 0
or_zero (some n) = n

abbrev or_none : Option (List Text) → List Text
or_none none = []
or_none (some xs) = xs

pub record Graph : Type 0 where
  pub in_degree : BTreeMap Text ℕ
  pub dependents : BTreeMap Text (List Text)

unfoldable pub add_deps : Text → List Text → Graph → Graph
add_deps name [] g = g
add_deps name (dep ∷ deps) g = add_deps name deps (record {
  in_degree = BTreeMap.insert name (or_zero (BTreeMap.get name g.in_degree) + 1) g.in_degree;
  dependents =
      BTreeMap.insert dep (or_none (BTreeMap.get dep g.dependents) ++ (name ∷ [])) g.dependents;
})

unfoldable pub add_scripts : List ActivationScript → Graph → Graph
unfolding add_deps
add_scripts [] g = g
add_scripts (s ∷ rest) g = add_scripts rest (
    add_deps s.name s.deps (record g {
      in_degree = BTreeMap.insert s.name (or_zero (BTreeMap.get s.name g.in_degree)) g.in_degree;
    }))

-- The names whose degree passes a test, in the order of the names.
unfoldable pub with_degree : (ℕ → Bool) → BTreeMap Text ℕ → List Text
with_degree test [] = []
with_degree test ((name, deg) ∷ rest) =
    let others = with_degree test rest in if test deg then name ∷ others else others

-- One dependent after another loses a dependency; those that have none left are next.
unfoldable pub release : List Text → BTreeMap Text ℕ → List Text × BTreeMap Text ℕ
release [] degrees = ([], degrees)
release (dep ∷ deps) degrees =
    let deg = or_zero (BTreeMap.get dep degrees) - 1 in
    let (next, degrees') = release deps (BTreeMap.insert dep deg degrees) in
    (if deg == 0 then dep ∷ next else next, degrees')

-- The queue, for at most `fuel` rounds.
unfoldable pub sort_loop :
    ℕ
    → BTreeMap Text (List Text)
    → List Text
    → BTreeMap Text ℕ
    → List Text
    → List Text × BTreeMap Text ℕ
unfolding release
sort_loop zero dependents queue degrees result = (result, degrees)
sort_loop (suc fuel) dependents [] degrees result = (result, degrees)
sort_loop (suc fuel) dependents (name ∷ queue) degrees result =
    let (next, degrees') = release (or_none (BTreeMap.get name dependents)) degrees in
    sort_loop fuel dependents (queue ++ BTreeSet.sort next) degrees' (result ++ (name ∷ []))

abbrev finished : ℕ → List Text × BTreeMap Text ℕ → Result (List Text) (List Text)
finished count (result, degrees) =
    if length result == count then ok result else err (with_degree (λ deg. not (deg == 0)) degrees)

abbrev empty_graph : Graph
empty_graph = record { in_degree = []; dependents = [] }

abbrev sorted : List ActivationScript → Graph → Result (List Text) (List Text)
sorted scripts g = finished (length scripts) (
    sort_loop (suc (length g.in_degree)) g.dependents (with_degree (λ deg. deg == 0) g.in_degree)
      g.in_degree [])

-- A failure names the unknown dependency, or the scripts that are left. A name enters the queue once,
-- when its last dependency goes, so that there are as many rounds as names.
unfoldable pub topo_sort : List ActivationScript → Result (List Text) (List Text)
unfolding unknown_script add_scripts sort_loop with_degree
topo_sort scripts = elim (unknown_script (script_names scripts) scripts) [
  | some (name, dep) ↦ err (dep ∷ [])
  | none ↦ sorted scripts (add_scripts scripts empty_graph)
]
