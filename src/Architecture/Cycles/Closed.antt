-- ===== src/Architecture/Cycles/Closed.antt =====
-- That every cycle the search reports is one.
use borromean_rings.Base.{
  some-inj, ℕ, zero, suc, length, String, ◌≡◌, refl, sym, ◌∙◌, subst, true, ◌||◌, Option, some,
  List, [], ◌∷◌, ◌++◌, ◌==◌, elem, any, any-append, All, arith, eq_iff, eq_refl, Bool-cases,
  Option-cases, inl, inr,
}
use borromean_rings.Base.Names.{sorted_names, elem-sorted_names, elem-All, elem_other}
use borromean_rings.Words.{is_some}
use borromean_rings.Architecture.{Graph, deps_of, modules}
use borromean_rings.Architecture.Cycles.{
  gray, color_of, State, step, each, visit, start, search, fresh, add_cycle, stack_from, same_nodes,
  find_cycles,
}
use borromean_rings.Architecture.Cycles.Gray.{
  GrayBack, each-cut, visit-cut, external, was_done, closes, visits, step-Stepped, step-GrayBack,
  visit-GrayBack,
}

-- Each module of a list imports the next one.
abbrev pub Linked : Graph → List String → Type 0
Linked graph [] = Unit
Linked graph (a ∷ []) = Unit
Linked graph (a ∷ b ∷ rest) = (elem b (deps_of graph a) ≡ true) × Linked graph (b ∷ rest)

-- A list of modules in which each one imports the next, and the last one the first.
abbrev pub IsCycle : Graph → List String → Type 0
IsCycle graph [] = ⊥
IsCycle graph (a ∷ rest) = Linked graph (a ∷ rest ++ a ∷ [])

abbrev OnStack : List String → State → Type 0
OnStack stack s = (x : String) → color_of s.color x ≡ some gray → elem x stack ≡ true

elem-push :
    (x node : String) (stack : List String)
    → elem x (stack ++ node ∷ []) ≡ (elem x stack || x == node)
elem-push x node stack = any-append (λ y. x == y) stack (node ∷ []) ∙ ground arith

OnStack-push :
    (node : String) (stack : List String) (s : State)
    → OnStack stack s
    → OnStack (stack ++ node ∷ []) (record s { color = (node, gray) ∷ s.color })
unfolding color_of
OnStack-push node stack s on x h = elim (Bool-cases (node == x)) [
  | inl e ↦ rw (elem-push x node stack, (eq_iff node x).0 e, eq_refl x) (ground arith)
  | inr e ↦ rw (elem-push x node stack, on x (rw e at h)) refl
]

module _ (graph : Graph) where
  -- The stack with one more module that its top imports.
  Linked-extend :
      (stack : List String) (node next : String)
      → Linked graph (stack ++ node ∷ [])
      → elem next (deps_of graph node) ≡ true
      → Linked graph ((stack ++ node ∷ []) ++ next ∷ [])
  Linked-extend [] node next l e = (e, tt)
  Linked-extend (a ∷ []) node next (f, l) e = (f, (e, tt))
  Linked-extend (a ∷ b ∷ stack) node next (f, l) e = (f, Linked-extend (b ∷ stack) node next l e)

  Linked-tail : (a : String) (rest : List String) → Linked graph (a ∷ rest) → Linked graph rest
  Linked-tail a [] l = tt
  Linked-tail a (b ∷ rest) (e, l) = l

  stack_from-IsCycle :
      (stack : List String) (next : String)
      → elem next stack ≡ true
      → Linked graph (stack ++ next ∷ [])
      → IsCycle graph (stack_from next stack)
  unfolding stack_from
  stack_from-IsCycle [] next e l = cc
  stack_from-IsCycle (n ∷ stack) next e l = elim (Bool-cases (n == next)) [
    | inl f ↦ rw f (subst (λ x. Linked graph (n ∷ stack ++ x ∷ [])) (sym ((eq_iff n next).0 f)) l)
    | inr f ↦ rw f (
        stack_from-IsCycle stack next (elem_other n next stack f e)
          (Linked-tail n (stack ++ next ∷ []) l))
  ]

  abbrev Real : State → Type 0
  Real s = All (IsCycle graph) s.found

  All-snoc :
      (cycles : List (List String)) (cycle : List String)
      → All (IsCycle graph) cycles
      → IsCycle graph cycle
      → All (IsCycle graph) (cycles ++ cycle ∷ [])
  All-snoc [] cycle a c = (c, tt)
  All-snoc (d ∷ cycles) cycle (b, a) c = (b, All-snoc cycles cycle a c)

  added-real :
      (cycle : List String) (cycles : List (List String))
      → All (IsCycle graph) cycles
      → IsCycle graph cycle
      → All (IsCycle graph) (add_cycle cycle cycles)
  unfolding add_cycle
  added-real cycle cycles a c = elim (Bool-cases (any (λ f. same_nodes f cycle) cycles)) [
    | inl e ↦ rw e a
    | inr e ↦ rw e (All-snoc cycles cycle a c)
  ]

  -- On a stack of which the gray nodes are members, a step keeps the cycles real.
  each-Real :
      (stack : List String) (f : String → State → Option State) (P : String → Type 0)
      → ((node : String) (s t : State) → f node s ≡ some t → GrayBack s t)
      → ((node : String) (s t : State)
          → P node
          → f node s ≡ some t
          → OnStack stack s
          → Real s
          → Real t)
      → (nodes : List String) (s t : State) → All P nodes
      → each f nodes s ≡ some t
      → OnStack stack s
      → Real s
      → Real t
  unfolding each
  each-Real stack f P back real [] s t a h on r = subst Real (some-inj s t h) r
  each-Real stack f P back real (node ∷ nodes) s t (p, a) h on r =
      let (u, e, k) = each-cut f node nodes s t h in
      each-Real stack f P back real nodes u t a k (λ x g. on x (back node s u e x g))
        (real node s u p e on r)

  module _ (go : List String → String → State → Option State) (stack : List String)
      (node : String) where
    step-Real :
        ((next : String) (s t : State)
          → Linked graph ((stack ++ node ∷ []) ++ next ∷ [])
          → go (stack ++ node ∷ []) next s ≡ some t
          → OnStack (stack ++ node ∷ []) s
          → Real s
          → Real t)
        → Linked graph (stack ++ node ∷ [])
        → (next : String) (s t : State) → elem next (deps_of graph node) ≡ true
        → step graph go (stack ++ node ∷ []) next s ≡ some t
        → OnStack (stack ++ node ∷ []) s
        → Real s
        → Real t
    step-Real deeper l next s t e h on r =
        elim (step-Stepped graph go (stack ++ node ∷ []) next s t h) [
          | external i q ↦ subst Real q r
          | was_done c q ↦ subst Real q r
          | closes c q ↦ subst Real q (
              added-real (stack_from next (stack ++ node ∷ [])) s.found r (
                stack_from-IsCycle (stack ++ node ∷ []) next (on next c)
                  (Linked-extend stack node next l e)))
          | visits i c q ↦ deeper next s t (Linked-extend stack node next l e) q on r
        ]

  visit-Real :
      (fuel : ℕ) (stack : List String) (node : String) (s t : State)
      → Linked graph (stack ++ node ∷ [])
      → visit graph fuel stack node s ≡ some t
      → OnStack stack s
      → Real s
      → Real t
  unfolding visit
  visit-Real zero stack node s t l h on r = cc
  visit-Real (suc fuel) stack node s t l h on r =
      let (u, e, k) = visit-cut graph fuel stack node s t h in
      let here = stack ++ node ∷ [] in
      subst Real k (
        each-Real here (step graph (visit graph fuel) here)
          (λ d. elem d (deps_of graph node) ≡ true)
          (step-GrayBack graph (visit graph fuel) here (visit-GrayBack graph fuel here))
          (λ next v w p q o.
            step-Real (visit graph fuel) stack node (visit-Real fuel here) l next v w p q o)
          (sorted_names (deps_of graph node)) (record s { color = (node, gray) ∷ s.color }) u
          (elem-All (λ d. elem d (deps_of graph node) ≡ true) (sorted_names (deps_of graph node))
            (λ d i. sym (elem-sorted_names d (deps_of graph node)) ∙ i))
          e (OnStack-push node stack s on) r)

  start-Real :
      (fuel : ℕ) (node : String) (s t : State)
      → start graph fuel node s ≡ some t
      → OnStack [] s
      → Real s
      → Real t
  start-Real fuel node s t h on r = elim (Bool-cases (is_some (color_of s.color node))) [
    | inl e ↦ subst Real (some-inj s t (rw e at h)) r
    | inr e ↦ visit-Real fuel [] node s t tt (rw e at h) on r
  ]

  start-GrayBack :
      (fuel : ℕ) (node : String) (s t : State) → start graph fuel node s ≡ some t → GrayBack s t
  start-GrayBack fuel node s t h = elim (Bool-cases (is_some (color_of s.color node))) [
    | inl e ↦ subst (λ v. GrayBack s v) (some-inj s t (rw e at h)) (λ x g. g)
    | inr e ↦ visit-GrayBack graph fuel [] node s t (rw e at h)
  ]

  search-Real : (fuel : ℕ) (s : State) → search graph fuel ≡ some s → Real s
  unfolding search color_of
  search-Real fuel s h =
      let names = sorted_names (modules graph) in
      each-Real [] (start graph fuel) (λ n. Unit) (start-GrayBack fuel)
        (λ n v w x q o r. start-Real fuel n v w q o r) names fresh s
        (elem-All (λ n. Unit) names (λ x e. tt)) h (λ x g. cc) tt

  -- Every cycle that is reported is one: each of its modules imports the next, and the last one
  -- the first.
  pub find_cycles-IsCycle : All (IsCycle graph) (find_cycles graph)
  unfolding find_cycles
  find_cycles-IsCycle = elim (Option-cases (search graph (suc (length (modules graph))))) [
    | inl e ↦ rw e tt
    | inr (s, e) ↦ rw e (search-Real (suc (length (modules graph))) s e)
  ]
