-- ===== src/Architecture/Cycles/Layers.antt =====
-- That a search without cycles leaves an order of the modules.
use borromean_rings.Base.{
  some-inj, ℕ, zero, suc, String, ◌≡◌, ◌≢◌, refl, ap, subst, true, ◌⊎◌, Option, none, some, List,
  [], ◌∷◌, ◌++◌, ◌==◌, elem, any, All, arith, eq_iff, eq_refl, Bool-cases, Option-cases, inl, inr,
}
use borromean_rings.Base.Names.{sorted_names, elem-All, All-elem, unsorted, elem_other}
use borromean_rings.Words.{is_some}
use borromean_rings.Architecture.{Graph, imports_of, deps_of, modules}
use borromean_rings.Architecture.Cycles.{
  Color, gray, black, Coloring, color_of, State, step, each, visit, start, search, fresh, add_cycle,
  stack_from, same_nodes,
}
use borromean_rings.Architecture.Cycles.Gray.{
  each-cut, visit-cut, external, was_done, closes, visits, step-Stepped, visit-GrayBack,
}

-- The modules that are done, the last one first.
abbrev only_black : String → Color → List String → List String
only_black n gray ns = ns
only_black n black ns = n ∷ ns

abbrev pub done : Coloring → List String
done [] = []
done ((n, c) ∷ coloring) = only_black n c (done coloring)

-- A list of modules in which each one stands before all modules of the graph that it imports.
abbrev pub Layered : Graph → List String → Type 0
Layered graph [] = Unit
Layered graph (n ∷ ns) =
    All (λ d. (imports_of graph d ≡ none) ⊎ (elem d ns ≡ true)) (deps_of graph n) × Layered graph ns

Grows : State → State → Type 0
Grows s t = (x : String) → elem x (done s.color) ≡ true → elem x (done t.color) ≡ true

done_lem : (c : Coloring) (x : String) → color_of c x ≡ some black → elem x (done c) ≡ true
unfolding color_of
done_lem [] x h = cc
done_lem ((n, gray) ∷ c) x h = elim (Bool-cases (n == x)) [
  | inl e ↦ cc (rw e at h)
  | inr e ↦ done_lem c x (rw e at h)
]
done_lem ((n, black) ∷ c) x h = elim (Bool-cases (n == x)) [
  | inl e ↦ rw ((eq_iff n x).0 e, eq_refl x) refl
  | inr e ↦ ground (arith, done_lem c x (rw e at h))
]

-- A step never takes a cycle away, so without one at the end there was none before.
added : (cycle : List String) (found : List (List String)) → add_cycle cycle found ≢ []
unfolding add_cycle
added cycle [] h = cc
added cycle (f ∷ found) h = elim (Bool-cases (any (λ g. same_nodes g cycle) (f ∷ found))) [
  | inl e ↦ cc (rw e at h)
  | inr e ↦ cc (rw e at h)
]

listed : (graph : Graph) (m : String) → elem m (modules graph) ≡ true → imports_of graph m ≢ none
unfolding imports_of
listed [] m e h = cc
listed ((n, deps) ∷ graph) m e h = elim (Bool-cases (n == m)) [
  | inl f ↦ cc (rw f at h)
  | inr f ↦ listed graph m (elem_other n m (modules graph) f e) (rw f at h)
]

module _ (graph : Graph) where
  abbrev Done : State → String → Type 0
  Done s d = (imports_of graph d ≡ none) ⊎ (elem d (done s.color) ≡ true)

  -- What a step with an invariant does where no cycle is found in the end.
  Sound : (State → Type 0) → List String → State → State → Type 0
  Sound I nodes s t = t.found ≡ [] → (s.found ≡ []) × (I s → I t × Grows s t × All (Done t) nodes)

  Done-Grows : (s t : State) → Grows s t → (d : String) → Done s d → Done t d
  unfolding Grows
  Done-Grows s t g d (inl e) = inl e
  Done-Grows s t g d (inr e) = inr (g d e)

  each-Sound :
      (I : State → Type 0) (f : String → State → Option State)
      → ((node : String) (s t : State) → f node s ≡ some t → Sound I (node ∷ []) s t)
      → (nodes : List String) (s t : State) → each f nodes s ≡ some t
      → Sound I nodes s t
  unfolding each Sound Grows
  each-Sound I f sound [] s t h =
      subst (λ u. Sound I [] s u) (some-inj s t h) (λ q. (q, λ i. (i, (λ x e. e), tt)))
  each-Sound I f sound (node ∷ nodes) s t h =
      let (u, e, k) = each-cut f node nodes s t h in
      λ q.
        let (r, after) = each-Sound I f sound nodes u t k q in
        let (p, first) = sound node s u e r in
        (
          p,
          λ i.
              let (j, g, d) = first i in
              let (l, m, ds) = after j in
              (l, (λ x y. m x (g x y)), (Done-Grows u t m node d.0, ds)),
        )

  abbrev IsLayered : State → Type 0
  IsLayered s = Layered graph (done s.color)

  step-Sound :
      (go : List String → String → State → Option State) (stack : List String)
      → ((node : String) (s t : State) → go stack node s ≡ some t → Sound IsLayered (node ∷ []) s t)
      → (next : String) (s t : State) → step graph go stack next s ≡ some t
      → Sound IsLayered (next ∷ []) s t
  unfolding Sound Grows
  step-Sound go stack sound next s t h = elim (step-Stepped graph go stack next s t h) [
    | external i e ↦
        subst (λ v. Sound IsLayered (next ∷ []) s v) e (λ q. (q, λ l. (l, (λ x y. y), (inl i, tt))))
    | was_done c e ↦
        subst (λ v. Sound IsLayered (next ∷ []) s v) e
          (λ q. (q, λ l. (l, (λ x y. y), (inr (done_lem s.color next c), tt))))
    | closes c e ↦
        subst (λ v. Sound IsLayered (next ∷ []) s v) e
          (λ q. absurd (added (stack_from next stack) s.found q))
    | visits i c e ↦ sound next s t e
  ]

  visit-Sound :
      (fuel : ℕ) (stack : List String) (node : String) (s t : State)
      → visit graph fuel stack node s ≡ some t
      → Sound IsLayered (node ∷ []) s t
  unfolding visit Sound Grows
  visit-Sound zero stack node s t h = cc
  visit-Sound (suc fuel) stack node s t h =
      let (u, e, k) = visit-cut graph fuel stack node s t h in
      let here = stack ++ node ∷ [] in
      let inner =
        each-Sound IsLayered (step graph (visit graph fuel) here)
          (step-Sound (visit graph fuel) here (visit-Sound fuel here))
          (sorted_names (deps_of graph node)) (record s { color = (node, gray) ∷ s.color }) u e in
      subst (λ v. Sound IsLayered (node ∷ []) s v) k
        (λ q.
          let (p, after) = inner q in
          (
            p,
            λ l.
                let (m, g, d) = after l in
                (
                  (unsorted (Done u) (deps_of graph node) d, m),
                  (λ x y. ground (arith, g x y)),
                  (inr (rw (eq_refl node) refl), tt),
                ),
          ))

  NoGray : State → Type 0
  NoGray s = (x : String) → color_of s.color x ≢ some gray

  abbrev IsSettled : State → Type 0
  IsSettled s = IsLayered s × NoGray s

  settled :
      (s : State) (node : String)
      → NoGray s
      → is_some (color_of s.color node) ≡ true
      → elem node (done s.color) ≡ true
  unfolding NoGray
  settled s node n h = elim (Option-cases (color_of s.color node)) [
    | inl e ↦ cc (h, ap is_some e)
    | inr (gray, e) ↦ absurd (n node e)
    | inr (black, e) ↦ done_lem s.color node e
  ]

  start-Sound :
      (fuel : ℕ) (node : String) (s t : State)
      → start graph fuel node s ≡ some t
      → Sound IsSettled (node ∷ []) s t
  unfolding Sound Grows NoGray
  start-Sound fuel node s t h = elim (Bool-cases (is_some (color_of s.color node))) [
    | inl e ↦
        subst (λ v. Sound IsSettled (node ∷ []) s v) (some-inj s t (rw e at h))
          (λ q. (q, λ (l, n). ((l, n), (λ x y. y), (inr (settled s node n e), tt))))
    | inr e ↦
        let ended = rw e at h in
        λ q.
          let (p, after) = visit-Sound fuel [] node s t ended q in
          (
            p,
            λ (l, n).
                let (m, g, d) = after l in
                ((m, λ x c. n x (visit-GrayBack graph fuel [] node s t ended x c)), g, d),
          )
  ]

  sure :
      (s : State) (m : String)
      → elem m (modules graph) ≡ true
      → Done s m
      → elem m (done s.color) ≡ true
  sure s m e (inl i) = absurd (listed graph m e i)
  sure s m e (inr d) = d

  pub search-Layered :
      (fuel : ℕ) (s : State)
      → search graph fuel ≡ some s
      → s.found ≡ []
      → (order : List String) × Layered graph order × All (λ m. elem m order ≡ true) (modules graph)
  unfolding search Sound NoGray color_of
  search-Layered fuel s h q =
      let (p, after) =
        each-Sound IsSettled (start graph fuel) (start-Sound fuel) (sorted_names (modules graph))
          fresh s h q in
      let (m, g, d) = after (tt, λ x c. cc) in
      let each_done = unsorted (Done s) (modules graph) d in
      (
        done s.color,
        m.0,
        elem-All (λ x. elem x (done s.color) ≡ true) (modules graph)
            (λ x e. sure s x e (All-elem (Done s) (modules graph) x each_done e)),
      )
