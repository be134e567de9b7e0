-- ===== src/Flake/Follows.antt =====
-- What chains of inputs lead to.
use nix_redox.Base.{
  ℕ, zero, suc, ◌≤◌, length, Text, List, [], ◌∷◌, Result, ok, err, ◌≡◌, ◌↔◌, refl, ap, ◌∙◌, subst,
  arith, Result-cases, inl, inr,
}
use nix_redox.Flake.{
  FlakeLock, FlakeError, out_of_fuel, direct, follows, input_of, walk, resolve_follows,
}

-- How the code goes from a node, along steps, to a node. An input that follows a chain goes on at the start of the chain,
-- and the steps that are left are dropped.
data Walks (lock : FlakeLock) : Text → List Text → Text → Type 0 where
  arrived : {node : Text} → Walks lock node [] node
  along :
      {node step target m : Text} {rest : List Text}
      → input_of lock node step ≡ ok (direct target)
      → Walks lock target rest m
      → Walks lock node (step ∷ rest) m
  across :
      {node step first m : Text} {rest chain : List Text}
      → input_of lock node step ≡ ok (follows (first ∷ chain))
      → Walks lock first chain m
      → Walks lock node (step ∷ rest) m

-- What a chain means where each element is an input of the node that the ones before it lead to: an
-- input that follows a chain stands for the node that this chain leads to, and the steps go on there.
pub data LeadsTo (lock : FlakeLock) : Text → List Text → Text → Type 0 where
  there : {node : Text} → LeadsTo lock node [] node
  direct_to :
      {node step target m : Text} {rest : List Text}
      → input_of lock node step ≡ ok (direct target)
      → LeadsTo lock target rest m
      → LeadsTo lock node (step ∷ rest) m
  followed_to :
      {node step first mid m : Text} {rest chain : List Text}
      → input_of lock node step ≡ ok (follows (first ∷ chain))
      → LeadsTo lock first chain mid
      → LeadsTo lock mid rest m
      → LeadsTo lock node (step ∷ rest) m

module _ (lock : FlakeLock) where
  ok-injective : {x y : Text} → ◌≡◌ {A = Result FlakeError Text} (ok x) (ok y) → x ≡ y
  ok-injective h = ground (arith, h)

  -- A chain that begins, and walks to a node.
  record Leads (chain : List Text) (m : Text) : Type 0 where
    first : Text
    steps : List Text
    begins : chain ≡ first ∷ steps
    walks : Walks lock first steps m

  walk-Walks :
      (again : List Text → Result FlakeError Text)
      → ((chain : List Text) (m : Text) → again chain ≡ ok m → Leads chain m)
      → (node : Text) (steps : List Text) (m : Text) → walk lock again node steps ≡ ok m
      → Walks lock node steps m
  unfolding walk
  walk-Walks again sound node [] m e = subst (λ n. Walks lock node [] n) (ok-injective e) arrived
  walk-Walks again sound node (step ∷ rest) m e = elim (Result-cases (input_of lock node step)) [
    | inr (x, i) ↦ absurd (ground arith)
    | inl (direct target, i) ↦ along i (walk-Walks again sound target rest m (rw (i, walk) at e))
    | inl (follows chain, i) ↦
        let l = sound chain m (rw (i, walk) at e) in
        across (i ∙ ap (λ c. ok (follows c)) l.begins) l.walks
  ]

  resolved-Leads :
      (fuel : ℕ) (chain : List Text) (m : Text)
      → resolve_follows fuel lock chain ≡ ok m
      → Leads chain m
  unfolding resolve_follows
  resolved-Leads zero chain m e = absurd (ground arith)
  resolved-Leads (suc fuel) [] m e = absurd (ground arith)
  resolved-Leads (suc fuel) (first ∷ steps) m e = record {
    first = first;
    steps = steps;
    begins = refl;
    walks = walk-Walks (resolve_follows fuel lock) (resolved-Leads fuel) first steps m e;
  }

  resolved-Walks :
      (fuel : ℕ) (first : Text) (steps : List Text) (m : Text)
      → resolve_follows fuel lock (first ∷ steps) ≡ ok m
      → Walks lock first steps m
  unfolding resolve_follows
  resolved-Walks zero first steps m e = absurd (ground arith)
  resolved-Walks (suc fuel) first steps m e =
      walk-Walks (resolve_follows fuel lock) (resolved-Leads fuel) first steps m e

  Walks-resolved :
      {first m : Text} {steps : List Text}
      → Walks lock first steps m
      → (fuel : ℕ) × (resolve_follows (suc fuel) lock (first ∷ steps) ≡ ok m)
  unfolding resolve_follows walk
  Walks-resolved arrived = (0, refl)
  Walks-resolved (along i w) = let (fuel, e) = Walks-resolved w in (fuel, rw (i, walk) e)
  Walks-resolved (across i w) = let (fuel, e) = Walks-resolved w in (suc fuel, rw (i, walk) e)

  -- What inputs of the lock file follow are chains `[source_node, input_name]`, or of a node alone.
  abbrev pub HasPairs : Type 0
  HasPairs =
      (node step first : Text) (chain : List Text)
      → input_of lock node step ≡ ok (follows (first ∷ chain))
      → length chain ≤ 1

  at_end : {node m : Text} → LeadsTo lock node [] m → node ≡ m
  at_end there = refl

  Walks-LeadsTo :
      {node m : Text} (steps : List Text)
      → HasPairs
      → length steps ≤ 1
      → Walks lock node steps m
      → LeadsTo lock node steps m
  Walks-LeadsTo _ h l arrived = there
  Walks-LeadsTo (step ∷ []) h l (along i w) = direct_to i (Walks-LeadsTo [] h (ground arith) w)
  Walks-LeadsTo (step ∷ []) h l (across {chain = chain} i w) =
      followed_to i (Walks-LeadsTo chain h (h _ _ _ chain i) w) there
  Walks-LeadsTo (step ∷ s ∷ rest) h l w = absurd (ground arith)

  LeadsTo-Walks :
      {node m : Text} (steps : List Text)
      → HasPairs
      → length steps ≤ 1
      → LeadsTo lock node steps m
      → Walks lock node steps m
  LeadsTo-Walks _ h l there = arrived
  LeadsTo-Walks (step ∷ []) h l (direct_to i w) = along i (LeadsTo-Walks [] h (ground arith) w)
  LeadsTo-Walks (step ∷ []) h l (followed_to {first = first} {chain = chain} i w v) =
      across i (
        subst (λ n. Walks lock first chain n) (at_end v)
          (LeadsTo-Walks chain h (h _ _ _ chain i) w))
  LeadsTo-Walks (step ∷ s ∷ rest) h l w = absurd (ground arith)

  -- Where the chains that inputs follow have at most two elements, as they are documented, and the chain
  -- that is asked for has so too, it is resolved to a node, with enough calls, exactly if it leads there.
  pub resolve_follows-LeadsTo :
      (first : Text) (steps : List Text) (m : Text)
      → HasPairs
      → length steps ≤ 1
      → ((fuel : ℕ) × (resolve_follows fuel lock (first ∷ steps) ≡ ok m))
        ↔ LeadsTo lock first steps m
  resolve_follows-LeadsTo first steps m h l = (
    λ (fuel, e). Walks-LeadsTo steps h l (resolved-Walks fuel first steps m e),
    λ w. let (fuel, e) = Walks-resolved (LeadsTo-Walks steps h l w) in (suc fuel, e),
  )

  -- An input that follows the chain it is in is looked up without an end.
  pub resolve_follows_endless :
      (fuel : ℕ) (node step : Text) (rest : List Text)
      → input_of lock node step ≡ ok (follows (node ∷ step ∷ []))
      → resolve_follows fuel lock (node ∷ step ∷ rest) ≡ err out_of_fuel
  unfolding resolve_follows walk
  resolve_follows_endless zero node step rest i = refl
  resolve_follows_endless (suc fuel) node step rest i =
      rw (i, walk) (resolve_follows_endless fuel node step [] i)
