-- ===== src/Architecture/Coupling/Worst.antt =====
-- That the worst fan-out is the largest one.
use borromean_rings.Base.{
  ℕ, ◌≤◌, String, ◌≡◌, refl, ap, ◌∙◌, ◌⊎◌, inl, inr, [], ◌∷◌, All, arith, Bool-cases,
}
use borromean_rings.Architecture.Imports.{Sources, build_import_graph}
use borromean_rings.Architecture.Coupling.{
  Counts, fan_out, beats, better, best_of, worst_of, worst_fan_out,
}

-- A count that is listed.
abbrev pub IsListed : Counts → String → ℕ → Type 0
IsListed [] m n = ⊥
IsListed ((k, c) ∷ counts) m n = ((m ≡ k) × (n ≡ c)) ⊎ IsListed counts m n

better-le :
    (best next : String × ℕ) → (best.1 ≤ (better best next).1) × (next.1 ≤ (better best next).1)
better-le (a, n) (b, k) = ground arith

best_of-le :
    (best : String × ℕ) (counts : Counts)
    → (best.1 ≤ (best_of best counts).1)
      × All (λ (c : String × ℕ). c.1 ≤ (best_of best counts).1) counts
unfolding best_of
best_of-le best [] = (omega arith, tt)
best_of-le best (next ∷ counts) =
    let (a, b) = better-le best next in
    let (c, d) = best_of-le (better best next) counts in
    (omega (arith, a, c), (omega (arith, b, c), d))

better-IsListed : (best next : String × ℕ) → (better best next ≡ best) ⊎ (better best next ≡ next)
better-IsListed best next = elim (Bool-cases (beats next best)) [
  | inl e ↦ inr (rw e refl)
  | inr e ↦ inl (rw e refl)
]

best_of-IsListed :
    (best : String × ℕ) (counts : Counts)
    → IsListed (best ∷ counts) (best_of best counts).0 (best_of best counts).1
unfolding best_of
best_of-IsListed best [] = inl (refl, refl)
best_of-IsListed best (next ∷ counts) = elim (best_of-IsListed (better best next) counts) [
  | inr l ↦ inr (inr l)
  | inl (p, q) ↦ elim (better-IsListed best next) [
    | inl e ↦ inl (p ∙ ap (λ (c : String × ℕ). c.0) e, q ∙ ap (λ (c : String × ℕ). c.1) e)
    | inr e ↦ inr (inl (p ∙ ap (λ (c : String × ℕ). c.0) e, q ∙ ap (λ (c : String × ℕ). c.1) e))
  ]
]

worst_of-IsListed :
    (counts : Counts)
    → All (λ (c : String × ℕ). c.1 ≤ (worst_of counts).0) counts
      × ((counts ≡ []) ⊎ IsListed counts (worst_of counts).1 (worst_of counts).0)
worst_of-IsListed [] = (tt, inl refl)
worst_of-IsListed (first ∷ counts) =
    let (a, b) = best_of-le first counts in ((a, b), inr (best_of-IsListed first counts))

-- The worst fan-out is the fan-out of the module that is named with it, and no module has a larger
-- one; a package without modules has none.
pub worst_fan_out-IsListed :
    (root : String) (sources : Sources)
    → All
        (λ (c : String × ℕ). c.1 ≤ (worst_fan_out root sources).0)
        (fan_out (build_import_graph root sources))
      × ((fan_out (build_import_graph root sources) ≡ [])
          ⊎ IsListed
              (fan_out (build_import_graph root sources))
              (worst_fan_out root sources).1
              (worst_fan_out root sources).0)
unfolding worst_fan_out
worst_fan_out-IsListed root sources = worst_of-IsListed (fan_out (build_import_graph root sources))
