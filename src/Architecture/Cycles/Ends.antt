-- ===== src/Architecture/Cycles/Ends.antt =====
-- That the search ends, and what an empty answer means.
use borromean_rings.Base.{
  ℕ, zero, suc, length, ◌≤◌, ◌<◌, String, ◌≡◌, refl, sym, ◌∙◌, ap, subst, true, false, Option, none,
  some, List, [], ◌∷◌, ◌++◌, ◌==◌, elem, All, arith, eq_iff, eq_refl, Bool-cases, Option-cases, inl,
  inr, if◌then◌else◌,
}
use borromean_rings.Base.Names.{sorted_names, elem-sorted_names, elem-All, elem_other}
use borromean_rings.Words.{is_some}
use borromean_rings.Architecture.{Graph, imports_of, deps_of, modules}
use borromean_rings.Architecture.Cycles.{
  Color, gray, black, Coloring, color_of, State, step, at_color, and_then, each, finish, visit,
  start, search, fresh, add_cycle, stack_from, find_cycles, cycles_of,
}
use borromean_rings.Architecture.Cycles.Layers.{Layered, search-Layered}

-- How many of some modules have no color.
white : List String → Coloring → ℕ
white [] c = 0
white (m ∷ ms) c = let rest = white ms c in if is_some (color_of c m) then rest else suc rest

abbrev Keeps : State → State → Type 0
Keeps s t = (x : String) → is_some (color_of s.color x) ≡ true → is_some (color_of t.color x) ≡ true

white-le : (ms : List String) (s t : State) → Keeps s t → white ms t.color ≤ white ms s.color
unfolding white
white-le [] s t k = omega arith
white-le (m ∷ ms) s t k = elim (Bool-cases (is_some (color_of s.color m))) [
  | inl e ↦ rw (e, k m e) (white-le ms s t k)
  | inr e ↦ ground (arith, e, white-le ms s t k)
]

entered :
    (node : String) (c : Color) (s : State) → Keeps s (record s { color = (node, c) ∷ s.color })
unfolding color_of
entered node c s x h = elim (Bool-cases (node == x)) [ inl e ↦ rw e refl | inr e ↦ rw e h ]

colored :
    (node : String) (c : Color) (s : State) → is_some (color_of ((node, c) ∷ s.color) node) ≡ true
unfolding color_of
colored node c s = rw (eq_refl node) refl

eq_flip : (a b : String) → (a == b) ≡ false → (b == a) ≡ false
eq_flip a b h = elim (Bool-cases (b == a)) [
  | inl e ↦ cc (h, ap (λ x. a == x) ((eq_iff b a).0 e), eq_refl a)
  | inr e ↦ e
]

white-lt :
    (ms : List String) (node : String) (c : Color) (s : State)
    → elem node ms ≡ true
    → color_of s.color node ≡ none
    → white ms ((node, c) ∷ s.color) < white ms s.color
unfolding white
white-lt [] node c s e n = cc
white-lt (m ∷ ms) node c s e n = elim (Bool-cases (node == m)) [
  | inl f ↦
      let same = (eq_iff node m).0 f in
      let le = white-le ms s (record s { color = (node, c) ∷ s.color }) (entered node c s) in
      let now =
        subst (λ x. is_some (color_of ((node, c) ∷ s.color) x) ≡ true) same (colored node c s) in
      let before = subst (λ x. color_of s.color x ≡ none) same n in
      rw (now, before) (omega (arith, le))
  | inr f ↦
      let lt = white-lt ms node c s (elem_other m node ms (eq_flip node m f) e) n in
      let kept = entered node c s m in ground (arith, lt, kept)
]

abbrev Ends : Option State → State → Type 0
Ends o s = (t : State) × (o ≡ some t) × Keeps s t

and_then-Ends :
    (o : Option State) (f : State → Option State) (s : State)
    → Ends o s
    → ((t : State) → Keeps s t → Ends (f t) t)
    → Ends (and_then o f) s
and_then-Ends none f s (t, e, k) g = cc
and_then-Ends (some u) f s (t, e, k) g =
    let same : t ≡ u = cc e in
    let keeps = subst (λ v. Keeps s v) same k in
    let (w, q, l) = g u keeps in (w, q, λ x h. l x (keeps x h))

known :
    (graph : Graph) (m : String)
    → is_some (imports_of graph m) ≡ true
    → elem m (modules graph) ≡ true
unfolding imports_of
known [] m h = cc
known ((n, deps) ∷ graph) m h = elim (Bool-cases (n == m)) [
  | inl e ↦ rw ((eq_iff n m).0 e, eq_refl m) refl
  | inr e ↦ ground (arith, known graph m (rw e at h))
]

module _ (graph : Graph) where
  abbrev left : State → ℕ
  left s = white (modules graph) s.color

  each-Ends :
      (n : ℕ) (f : String → State → Option State) (P : String → Type 0)
      → ((node : String) (s : State) → P node → left s < n → Ends (f node s) s)
      → (nodes : List String) (s : State) → All P nodes
      → left s < n
      → Ends (each f nodes s) s
  unfolding each
  each-Ends n f P ends [] s a h = (s, refl, λ x e. e)
  each-Ends n f P ends (node ∷ nodes) s (p, a) h =
      and_then-Ends (f node s) (each f nodes) s (ends node s p h)
        (λ t k. each-Ends n f P ends nodes t a (omega (arith, h, white-le (modules graph) s t k)))

  at_color-Ends :
      (n : ℕ) (go : List String → String → State → Option State) (stack : List String)
      → ((node : String) (s : State)
          → elem node (modules graph) ≡ true
          → color_of s.color node ≡ none
          → left s < n
          → Ends (go stack node s) s)
      → (next : String) (s : State) → elem next (modules graph) ≡ true
      → left s < n
      → (c : Option Color) → color_of s.color next ≡ c
      → Ends (at_color go stack next s c) s
  at_color-Ends n go stack ends next s e h none q = ends next s e q h
  at_color-Ends n go stack ends next s e h (some gray) q =
      (record s { found = add_cycle (stack_from next stack) s.found }, refl, λ x k. k)
  at_color-Ends n go stack ends next s e h (some black) q = (s, refl, λ x k. k)

  step-Ends :
      (n : ℕ) (go : List String → String → State → Option State) (stack : List String)
      → ((node : String) (s : State)
          → elem node (modules graph) ≡ true
          → color_of s.color node ≡ none
          → left s < n
          → Ends (go stack node s) s)
      → (next : String) (s : State) → left s < n
      → Ends (step graph go stack next s) s
  step-Ends n go stack ends next s h = elim (Bool-cases (is_some (imports_of graph next))) [
    | inl e ↦
        rw e
          (at_color-Ends n go stack ends next s (known graph next e) h (color_of s.color next) refl)
    | inr e ↦ rw e (s, refl, λ x k. k)
  ]

  visit-Ends :
      (fuel : ℕ) (stack : List String) (node : String) (s : State)
      → elem node (modules graph) ≡ true
      → color_of s.color node ≡ none
      → left s < fuel
      → Ends (visit graph fuel stack node s) s
  unfolding visit
  visit-Ends zero stack node s e n h = elim h [ ]
  visit-Ends (suc fuel) stack node s e n h =
      let here = stack ++ node ∷ [] in
      let inside : State = record s { color = (node, gray) ∷ s.color } in
      let (t, q, k) =
        and_then-Ends
          (each (step graph (visit graph fuel) here) (sorted_names (deps_of graph node)) inside)
          (finish node) inside
          (each-Ends fuel (step graph (visit graph fuel) here) (λ d. Unit)
            (λ next u p l. step-Ends fuel (visit graph fuel) here (visit-Ends fuel here) next u l)
            (sorted_names (deps_of graph node)) inside
            (elem-All (λ d. Unit) (sorted_names (deps_of graph node)) (λ d i. tt))
            (omega (arith, h, white-lt (modules graph) node gray s e n)))
          (λ u l. (record u { color = (node, black) ∷ u.color }, refl, entered node black u)) in
      (t, q, λ x g. k x (entered node gray s x g))

  start-Ends :
      (fuel : ℕ) (node : String) (s : State)
      → elem node (modules graph) ≡ true
      → left s < fuel
      → Ends (start graph fuel node s) s
  start-Ends fuel node s e h = elim (Option-cases (color_of s.color node)) [
    | inl n ↦ rw n (visit-Ends fuel [] node s e n h)
    | inr (c, n) ↦ rw n (s, refl, λ x k. k)
  ]

  white-fresh : (ms : List String) → white ms [] ≡ length ms
  unfolding white color_of
  white-fresh [] = refl
  white-fresh (m ∷ ms) = omega (arith, white-fresh ms)

  search-Ends : Ends (search graph (suc (length (modules graph)))) fresh
  unfolding search
  search-Ends =
      let names = sorted_names (modules graph) in
      let n = suc (length (modules graph)) in
      each-Ends n (start graph n) (λ m. elem m (modules graph) ≡ true)
        (λ m s e h. start-Ends n m s e h) names fresh
        (elem-All (λ m. elem m (modules graph) ≡ true) names
          (λ m e. sym (elem-sorted_names m (modules graph)) ∙ e))
        (omega (arith, white-fresh (modules graph)))

  -- The search ends: as much depth as the graph has modules is enough.
  pub search-ends : (s : State) × (search graph (suc (length (modules graph))) ≡ some s)
  search-ends = (search-Ends.0, search-Ends.1)

  -- Where no cycle is reported the graph has none: its modules can be put in an order in which each
  -- one stands before all modules of the graph that it imports.
  pub find_cycles-Layered :
      find_cycles graph ≡ []
      → (order : List String) × Layered graph order × All (λ m. elem m order ≡ true) (modules graph)
  unfolding find_cycles
  find_cycles-Layered h =
      let (s, e) = search-ends in
      search-Layered graph (suc (length (modules graph))) s e (sym (ap cycles_of e) ∙ h)
