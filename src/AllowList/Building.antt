-- ===== src/AllowList/Building.antt =====
-- What a derivation can and cannot put on its list.
use nix_redox.Base.{
  Text, Bool, true, false, Option, none, some, List, [], ◌∷◌, if◌then◌else◌, ◌≡◌, ◌↔◌, refl, sym,
  ◌∙◌, subst, arith, inr,
}
use nix_redox.Base.Words.{split_whitespace}
use nix_redox.Base.Strings.{text_eq, bytes}
use nix_redox.AllowList.{FilePath, read_write, AllowList, some_match, check, can_read, can_write}
use nix_redox.AllowList.{
  Derivation, EnvValue, text, binary, normalize_path, allow_read, add_token, add_tokens,
  add_arg_paths, add_args, add_value, add_environment, add_outputs, add_inputs, add_builder,
  add_sources, fixed_list, build_allow_list,
}
use nix_redox.AllowList.Checks.{In, Covered, some_match_exact, check_exact}

-- What is added to a list behind the fixed entries: only read access, and no entry is dropped.
pub record Extends (list list' : AllowList) : Type 0 where
  pub writes : list'.read_write_paths ≡ list.read_write_paths
  pub reads : (e : FilePath) → In e list.read_only_paths → In e list'.read_only_paths

Extends-refl : (list : AllowList) → Extends list list
Extends-refl list = record { writes = refl; reads = λ e i. i }

Extends-trans : (a b c : AllowList) → Extends a b → Extends b c → Extends a c
Extends-trans a b c h k = record {
  writes = k.writes ∙ h.writes;
  reads = λ e i. k.reads e (h.reads e i);
}

Extends-allow_read : (path : FilePath) (list : AllowList) → Extends list (allow_read path list)
Extends-allow_read path list = record { writes = refl; reads = λ e i. inr i }

Extends-if :
    (b : Bool) (list x y : AllowList)
    → Extends list x
    → Extends list y
    → Extends list (if b then x else y)
Extends-if true list x y h k = h
Extends-if false list x y h k = k

Extends-add_token : (list : AllowList) (token : Text) → Extends list (add_token list token)
unfolding add_token
Extends-add_token list token =
    let one = Extends-allow_read (normalize_path _) list in
    Extends-if _ list _ _ (Extends-refl list)
      (Extends-if _ list _ _ (Extends-trans list _ _ one (Extends-allow_read _ _)) one)

Extends-add_tokens : (list : AllowList) (ts : List Text) → Extends list (add_tokens list ts)
Extends-add_tokens list [] = unfold add_tokens in Extends-refl list
Extends-add_tokens list (t ∷ ts) = step (Extends-add_tokens (add_token list t) ts)
  where
    step :
        Extends (add_token list t) (add_tokens (add_token list t) ts)
        → Extends list (add_tokens list (t ∷ ts))
    step h = unfold add_tokens in Extends-trans list _ _ (Extends-add_token list t) h

Extends-args : (list : AllowList) (args : List Text) → Extends list (add_args list args)
unfolding add_args add_arg_paths
Extends-args list [] = Extends-refl list
Extends-args list (arg ∷ args) =
    Extends-trans list _ _ (Extends-add_tokens list (split_whitespace arg))
      (Extends-args (add_arg_paths list arg) args)

Extends-value : (list : AllowList) (v : EnvValue) → Extends list (add_value list v)
unfolding add_value
Extends-value list binary = Extends-refl list
Extends-value list (text s) = Extends-if _ list _ _ (Extends-allow_read _ list) (Extends-refl list)

Extends-environment :
    (list : AllowList) (env : List (Text × EnvValue)) → Extends list (add_environment list env)
unfolding add_environment
Extends-environment list [] = Extends-refl list
Extends-environment list ((key, val) ∷ rest) =
    Extends-trans list _ _
      (Extends-if (text_eq key (bytes "out")) list list (add_value list val) (Extends-refl list)
        (Extends-value list val))
      (Extends-environment (if text_eq key (bytes "out") then list else add_value list val) rest)

Extends-sources : (list : AllowList) (ss : List Text) → Extends list (add_sources list ss)
unfolding add_sources
Extends-sources list [] = Extends-refl list
Extends-sources list (s ∷ ss) =
    Extends-trans list _ _ (Extends-allow_read _ list)
      (Extends-sources (allow_read (normalize_path s) list) ss)

abbrev with_output : AllowList → Option Text → AllowList
with_output list none = list
with_output list (some path) = allow_read (normalize_path path) list

Extends-output : (list : AllowList) (o : Option Text) → Extends list (with_output list o)
Extends-output list none = Extends-refl list
Extends-output list (some path) = Extends-allow_read _ list

Extends-outputs :
    (f : Text → Option Text) (list : AllowList) (names : List Text)
    → Extends list (add_outputs f list names)
unfolding add_outputs
Extends-outputs f list [] = Extends-refl list
Extends-outputs f list (n ∷ names) =
    Extends-trans list _ _ (Extends-output list (f n))
      (Extends-outputs f (with_output list (f n)) names)

abbrev with_outputs : AllowList → List Text → Option (Text → Option Text) → AllowList
with_outputs list names none = list
with_outputs list names (some f) = add_outputs f list names

Extends-drv :
    (list : AllowList) (names : List Text) (o : Option (Text → Option Text))
    → Extends list (with_outputs list names o)
Extends-drv list names none = Extends-refl list
Extends-drv list names (some f) = Extends-outputs f list names

Extends-inputs :
    (known : Text → Option (Text → Option Text)) (list : AllowList) (ds : List (Text × List Text))
    → Extends list (add_inputs known list ds)
unfolding add_inputs
Extends-inputs known list [] = Extends-refl list
Extends-inputs known list ((drv, names) ∷ rest) =
    Extends-trans list _ _ (Extends-drv list names (known drv))
      (Extends-inputs known (with_outputs list names (known drv)) rest)

Extends-builder : (list : AllowList) (builder : Text) → Extends list (add_builder list builder)
unfolding add_builder
Extends-builder list builder = Extends-if _ list _ _ (Extends-refl list) (Extends-allow_read _ list)

build_allow_list-Extends :
    (drv : Derivation) (known : Text → Option (Text → Option Text)) (out tmp : Text)
    → Extends (fixed_list out tmp) (build_allow_list drv known out tmp)
unfolding build_allow_list
build_allow_list-Extends drv known out tmp =
    let l0 = fixed_list out tmp in
    let l1 = add_builder l0 drv.builder in
    let l2 = add_args l1 drv.arguments in
    let l3 = add_environment l2 drv.environment in
    let l4 = add_sources l3 drv.input_sources in
    Extends-trans l0 l1 _ (Extends-builder l0 drv.builder) (
      Extends-trans l1 l2 _ (Extends-args l1 drv.arguments) (
        Extends-trans l2 l3 _ (Extends-environment l2 drv.environment) (
          Extends-trans l3 l4 _ (Extends-sources l3 drv.input_sources)
            (Extends-inputs known l4 drv.input_derivations))))

can_write→read_write :
    (list : AllowList) (path : FilePath)
    → (can_write list path ≡ true) ↔ (check list path ≡ read_write)
unfolding can_write
can_write→read_write list path = (λ h. ground arith, λ h. rw (h, can_write))

-- A builder can write a path exactly if it lies below its output directory, its temporary directory
-- or one of the fixed files and devices: no builder, argument, environment variable or input of a
-- derivation gives write access to anything.
pub build_allow_list-can_write :
    (drv : Derivation) (known : Text → Option (Text → Option Text)) (out tmp : Text)
    (path : FilePath)
    → (can_write (build_allow_list drv known out tmp) path ≡ true)
      ↔ Covered (fixed_list out tmp).read_write_paths path
build_allow_list-can_write drv known out tmp path =
    let list = build_allow_list drv known out tmp in
    let same = (build_allow_list-Extends drv known out tmp).writes in
    (
      λ h.
          subst (λ es. Covered es path) same
            ((check_exact list path).0.0 ((can_write→read_write list path).0 h)),
      λ c.
          (can_write→read_write list path).1
            ((check_exact list path).0.1 (subst (λ es. Covered es path) (sym same) c)),
    )

-- Whatever the derivation, the system paths can be read: the store and the tools of the system.
pub build_allow_list-can_read :
    (drv : Derivation) (known : Text → Option (Text → Option Text)) (out tmp : Text)
    (path : FilePath)
    → Covered (fixed_list out tmp).read_only_paths path
    → can_read (build_allow_list drv known out tmp) path ≡ true
build_allow_list-can_read drv known out tmp path c =
    let list = build_allow_list drv known out tmp in
    let ext = build_allow_list-Extends drv known out tmp in
    let readable : some_match path list.read_only_paths ≡ true =
      (some_match_exact path list.read_only_paths).1 (record {
        entry = c.entry;
        listed = ext.reads c.entry c.listed;
        rest = c.rest;
        below = c.below;
      }) in
    unfold can_read check in ground arith
