-- ===== src/Architecture/Cycles/Gray.antt =====
-- The colors while the graph is searched: what is on the stack.
use borromean_rings.Base.{
  some-inj, ℕ, zero, suc, String, ◌≡◌, refl, subst, true, false, Option, none, some, List, [], ◌∷◌,
  ◌++◌, ◌==◌, Bool-cases, inl, inr,
}
use borromean_rings.Base.Names.{sorted_names}
use borromean_rings.Words.{is_some}
use borromean_rings.Architecture.{Graph, imports_of, deps_of}
use borromean_rings.Architecture.Cycles.{
  Color, gray, black, color_of, State, step, at_color, and_then, each, finish, visit, add_cycle,
  stack_from,
}

-- What is on the stack after a step was on it before.
abbrev pub GrayBack : State → State → Type 0
GrayBack s t = (x : String) → color_of t.color x ≡ some gray → color_of s.color x ≡ some gray

pub and_then-cut :
    (o : Option State) (f : State → Option State) (t : State)
    → and_then o f ≡ some t
    → (u : State) × (o ≡ some u) × (f u ≡ some t)
and_then-cut none f t h = cc
and_then-cut (some u) f t h = (u, refl, h)

-- A run of steps that ends is a step that ends, and a run that ends.
pub each-cut :
    (f : String → State → Option State) (node : String) (nodes : List String) (s t : State)
    → each f (node ∷ nodes) s ≡ some t
    → (u : State) × (f node s ≡ some u) × (each f nodes u ≡ some t)
unfolding each
each-cut f node nodes s t h = and_then-cut (f node s) (each f nodes) t h

pub each-GrayBack :
    (f : String → State → Option State)
    → ((node : String) (s t : State) → f node s ≡ some t → GrayBack s t)
    → (nodes : List String) (s t : State) → each f nodes s ≡ some t
    → GrayBack s t
unfolding each
each-GrayBack f back [] s t h = subst (λ u. GrayBack s u) (some-inj s t h) (λ x e. e)
each-GrayBack f back (node ∷ nodes) s t h =
    let (u, e, k) = each-cut f node nodes s t h in
    λ x g. back node s u e x (each-GrayBack f back nodes u t k x g)

-- A visit that ends colored its node, went through its imports, and finished it.
pub visit-cut :
    (graph : Graph) (fuel : ℕ) (stack : List String) (node : String) (s t : State)
    → visit graph (suc fuel) stack node s ≡ some t
    → (u : State) × (each
          (step graph (visit graph fuel) (stack ++ node ∷ []))
          (sorted_names (deps_of graph node))
          (record s { color = (node, gray) ∷ s.color })
        ≡ some u)
      × (record u { color = (node, black) ∷ u.color } ≡ t)
unfolding visit
visit-cut graph fuel stack node s t h =
    let here = stack ++ node ∷ [] in
    let entered : State = record s { color = (node, gray) ∷ s.color } in
    let (u, e, k) =
      and_then-cut
        (each (step graph (visit graph fuel) here) (sorted_names (deps_of graph node)) entered)
        (finish node) t h in
    (u, e, some-inj (record u { color = (node, black) ∷ u.color }) t k)

-- What a step came to.
pub data Stepped (graph : Graph) (go : List String → String → State → Option State)
    (stack : List String) (next : String) (s t : State) : Type 0 where
  external : imports_of graph next ≡ none → s ≡ t → Stepped graph go stack next s t
  was_done : color_of s.color next ≡ some black → s ≡ t → Stepped graph go stack next s t
  closes :
      color_of s.color next ≡ some gray
      → record s { found = add_cycle (stack_from next stack) s.found } ≡ t
      → Stepped graph go stack next s t
  visits :
      is_some (imports_of graph next) ≡ true
      → color_of s.color next ≡ none
      → go stack next s ≡ some t
      → Stepped graph go stack next s t

at-Stepped :
    (graph : Graph) (go : List String → String → State → Option State) (stack : List String)
    (next : String) (s t : State) (c : Option Color)
    → is_some (imports_of graph next) ≡ true
    → color_of s.color next ≡ c
    → at_color go stack next s c ≡ some t
    → Stepped graph go stack next s t
at-Stepped graph go stack next s t none i e h = visits i e h
at-Stepped graph go stack next s t (some gray) i e h = closes e (some-inj _ t h)
at-Stepped graph go stack next s t (some black) i e h = was_done e (some-inj s t h)

missing : (o : Option (List String)) → is_some o ≡ false → o ≡ none
missing none h = refl
missing (some x) h = cc

pub step-Stepped :
    (graph : Graph) (go : List String → String → State → Option State) (stack : List String)
    (next : String) (s t : State)
    → step graph go stack next s ≡ some t
    → Stepped graph go stack next s t
step-Stepped graph go stack next s t h = elim (Bool-cases (is_some (imports_of graph next))) [
  | inl e ↦ at-Stepped graph go stack next s t (color_of s.color next) e refl (rw e at h)
  | inr e ↦ external (missing (imports_of graph next) e) (some-inj s t (rw e at h))
]

-- A node that was entered and finished is on no stack.
unstacked :
    (node : String) (s u : State)
    → GrayBack (record s { color = (node, gray) ∷ s.color }) u
    → GrayBack s (record u { color = (node, black) ∷ u.color })
unfolding color_of
unstacked node s u back x h = elim (Bool-cases (node == x)) [
  | inl e ↦ cc (rw e at h)
  | inr e ↦ rw e at (back x (rw e at h))
]

module _ (graph : Graph) where
  pub step-GrayBack :
      (go : List String → String → State → Option State) (stack : List String)
      → ((node : String) (s t : State) → go stack node s ≡ some t → GrayBack s t)
      → (next : String) (s t : State) → step graph go stack next s ≡ some t
      → GrayBack s t
  step-GrayBack go stack back next s t h = elim (step-Stepped graph go stack next s t h) [
    | external i e ↦ subst (λ v. GrayBack s v) e (λ x g. g)
    | was_done c e ↦ subst (λ v. GrayBack s v) e (λ x g. g)
    | closes c e ↦ subst (λ v. GrayBack s v) e (λ x g. g)
    | visits i c e ↦ back next s t e
  ]

  pub visit-GrayBack :
      (fuel : ℕ) (stack : List String) (node : String) (s t : State)
      → visit graph fuel stack node s ≡ some t
      → GrayBack s t
  unfolding visit
  visit-GrayBack zero stack node s t h = cc
  visit-GrayBack (suc fuel) stack node s t h =
      let (u, e, k) = visit-cut graph fuel stack node s t h in
      let here = stack ++ node ∷ [] in
      let inner : GrayBack (record s { color = (node, gray) ∷ s.color }) u =
        each-GrayBack (step graph (visit graph fuel) here)
          (step-GrayBack (visit graph fuel) here (visit-GrayBack fuel here))
          (sorted_names (deps_of graph node)) (record s { color = (node, gray) ∷ s.color }) u e in
      subst (λ v. GrayBack s v) k (unstacked node s u inner)
