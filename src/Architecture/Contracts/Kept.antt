-- ===== src/Architecture/Contracts/Kept.antt =====
-- What a report without violations means.
use borromean_rings.Base.{
  append-none, String, ◌≡◌, refl, sym, ◌∙◌, eq_refl, ◌↔◌, ◌⊎◌, inl, inr, Bool, true, false, List,
  [], ◌∷◌, ◌++◌, elem, keep, map, All, Bool-cases, if◌then◌else◌,
}
use borromean_rings.Base.Names.{sorted_names, elem-sorted_names, elem-All, All-elem, unsorted}
use borromean_rings.Architecture.{Graph, deps_of, modules}
use borromean_rings.Architecture.Cycles.{find_cycles}
use borromean_rings.Architecture.Contracts.{
  ArchViolation, private_import, cycle, leaf_at, leaf_violations, private_among, private_violations,
  forbidden_violations, cycle_violations, Contracts, all_violations, no_violation, evaluate,
}

-- A module that imports no module out of a list.
abbrev pub ImportsNone : Graph → List String → String → Type 0
ImportsNone graph names m = All (λ d. elem d names ≡ false) (deps_of graph m)

map-none {ℓ} : {A : Type ℓ} (f : A → ArchViolation) (xs : List A) → (map f xs ≡ []) ↔ (xs ≡ [])
map-none f [] = (λ h. refl, λ h. refl)
map-none f (x ∷ xs) = (λ h. cc, λ h. cc)

keep-none : (p : String → Bool) (xs : List String) → (keep p xs ≡ []) ↔ All (λ x. p x ≡ false) xs
keep-none p [] = (λ h. tt, λ h. refl)
keep-none p (x ∷ xs) = elim (Bool-cases (p x)) [
  | inl e ↦ rw e (λ h. cc, λ (a, b). cc)
  | inr e ↦ let (to, from) = keep-none p xs in rw e (λ h. (refl, to h), λ (a, b). from b)
]

All-sorted : (P : String → Type 0) (xs : List String) → All P xs → All P (sorted_names xs)
All-sorted P xs a =
    elem-All P (sorted_names xs) (λ x h. All-elem P xs x a (sym (elem-sorted_names x xs) ∙ h))

nothing : (xs : List String) → (sorted_names xs ≡ []) ↔ (xs ≡ [])
unfolding sorted_names
nothing [] = (λ h. refl, λ h. refl)
nothing (x ∷ xs) = (λ h. cc (elem-sorted_names x (x ∷ xs), h, eq_refl x), λ h. cc)

leaf_at-none :
    (m : String) (ds : List String) (rest : List ArchViolation)
    → (leaf_at m ds rest ≡ []) ↔ ((ds ≡ []) × (rest ≡ []))
leaf_at-none m [] rest = (λ h. (refl, h), λ (a, b). b)
leaf_at-none m (d ∷ ds) rest = (λ h. cc, λ (a, b). cc)

module _ (graph : Graph) where
  leaf-none :
      (leaves : List String)
      → (leaf_violations graph leaves ≡ []) ↔ All (λ m. deps_of graph m ≡ []) leaves
  unfolding leaf_violations
  leaf-none [] = (λ h. tt, λ h. refl)
  leaf-none (m ∷ leaves) =
      let (a, b) = leaf_at-none m (sorted_names (deps_of graph m)) (leaf_violations graph leaves) in
      let (c, d) = nothing (deps_of graph m) in
      let (to, from) = leaf-none leaves in
      (λ h. let (x, y) = a h in (c x, to y), λ (x, y). b (d x, from y))

  among-none :
      (priv names : List String)
      → (private_among graph priv names ≡ [])
        ↔ All (λ m. (elem m priv ≡ true) ⊎ ImportsNone graph priv m) names
  unfolding private_among
  among-none priv [] = (λ h. tt, λ h. refl)
  among-none priv (m ∷ names) = elim (Bool-cases (elem m priv)) [
    | inl e ↦
        let (to, from) = among-none priv names in rw e (λ h. (inl refl, to h), λ (a, b). from b)
    | inr e ↦
        let deps = deps_of graph m in
        let found = keep (λ d. elem d priv) (sorted_names deps) in
        let (a, b) = append-none (map (private_import m) found) (private_among graph priv names) in
        let (c, d) = map-none (private_import m) found in
        let (k, l) = keep-none (λ d. elem d priv) (sorted_names deps) in
        let free : String → Type 0 = λ d. elem d priv ≡ false in
        let (to, from) = among-none priv names in
        rw e (
          λ h. let (x, y) = a h in (inr (unsorted free deps (k (c x))), to y),
          λ (x, y). elim x [ inl t ↦ cc | inr f ↦ b (d (l (All-sorted free deps f)), from y) ],
        )
  ]

  private-none :
      (priv : List String)
      → (private_violations graph priv ≡ [])
        ↔ All (λ m. (elem m priv ≡ true) ⊎ ImportsNone graph priv m) (modules graph)
  unfolding private_violations
  private-none priv =
      let Kept : String → Type 0 = λ m. (elem m priv ≡ true) ⊎ ImportsNone graph priv m in
      let (to, from) = among-none priv (sorted_names (modules graph)) in
      (λ h. unsorted Kept (modules graph) (to h), λ a. from (All-sorted Kept (modules graph) a))

  forbidden-none :
      (forbidden : List (String × String))
      → (forbidden_violations graph forbidden ≡ [])
        ↔ All (λ (edge : String × String). elem edge.1 (deps_of graph edge.0) ≡ false) forbidden
  unfolding forbidden_violations
  forbidden-none [] = (λ h. tt, λ h. refl)
  forbidden-none ((importer, target) ∷ forbidden) =
      elim (Bool-cases (elem target (deps_of graph importer))) [
        | inl e ↦ rw e (λ h. cc, λ (a, b). cc)
        | inr e ↦
            let (to, from) = forbidden-none forbidden in rw e (λ h. (refl, to h), λ (a, b). from b)
      ]

  cycle-none :
      (forbid : Bool)
      → ((if forbid then cycle_violations graph else []) ≡ [])
        ↔ ((forbid ≡ false) ⊎ (find_cycles graph ≡ []))
  unfolding cycle_violations
  cycle-none false = (λ h. inl refl, λ h. refl)
  cycle-none true =
      let (to, from) = map-none cycle (find_cycles graph) in
      (λ h. inr (to h), λ h. elim h [ inl e ↦ cc | inr e ↦ from e ])

  ok-none : (vs : List ArchViolation) → (no_violation vs ≡ true) ↔ (vs ≡ [])
  ok-none [] = (λ h. refl, λ h. refl)
  ok-none (v ∷ vs) = (λ h. cc, λ h. cc)

  -- The report is ok exactly when the leaves import nothing, only private modules import private
  -- ones, no forbidden import is there, and, where cycles are forbidden, none is found.
  pub evaluate-ok :
      (c : Contracts)
      → ((evaluate graph c).ok ≡ true) ↔ (
          All (λ m. deps_of graph m ≡ []) c.leaves
          × All (λ m. (elem m c.priv ≡ true) ⊎ ImportsNone graph c.priv m) (modules graph)
          × All (λ (edge : String × String). elem edge.1 (deps_of graph edge.0) ≡ false) c.forbidden
          × ((c.forbid_cycles ≡ false) ⊎ (find_cycles graph ≡ [])))
  unfolding evaluate
  evaluate-ok c =
      let cycles = if c.forbid_cycles then cycle_violations graph else [] in
      let (ok_to, ok_from) = ok-none (all_violations graph c) in
      let one = leaf_violations graph c.leaves in
      let two = private_violations graph c.priv in
      let three = forbidden_violations graph c.forbidden in
      let (a, b) = append-none (one ++ two ++ three) cycles in
      let (d, e) = append-none (one ++ two) three in
      let (f, g) = append-none one two in
      let (l, m) = leaf-none c.leaves in
      let (p, q) = private-none c.priv in
      let (r, s) = forbidden-none c.forbidden in
      let (t, u) = cycle-none c.forbid_cycles in
      (
        λ h.
            let (front, w) = a (ok_to h) in
            let (pair, z) = d front in let (x, y) = f pair in (l x, p y, r z, t w),
        λ (x, y, z, w). ok_from (b (e (g (m x, q y), s z), u w)),
      )
