-- ===== src/Closure/Fuel.antt =====
-- That the walk of closure.py ends: the fuel that is enough where the distributions that can be met
-- are finitely many.
use mathlib.Core.List.{Memᴰ}
use borromean_rings.Base.{
  ℕ, zero, suc, ◌+◌, ◌*◌, ◌≤◌, ◌<◌, ◌≡◌, refl, false, some, List, [], ◌∷◌, All, map, length, arith,
  Bool-cases, inl, inr, ◌∙◌, ap, if◌then◌else◌,
}
use borromean_rings.Closure.Requirement.{Text, contains}
use borromean_rings.Closure.Walk.{
  Wanted, Index, children, push_all, walk, seed_of, seeded, installed_closure,
}
use borromean_rings.Closure.Reach.{
  Has, Explored, text_eq_refl, walk-again, walk-first, All-push, All-map, closure_closed,
}

-- Finitely many names that hold the seeds and the children of each of them, and a bound on the
-- number of these children.
pub record Universe (ix : Index) (seeds : List Wanted) (names : List Text) (width : ℕ)
    : Type 0 where
  pub has_seeds : All (λ w. Memᴰ (seed_of ix w).0 names) seeds
  pub has_children :
      (name : Text) (extras : List Text)
      → Memᴰ name names
      → All (λ (w : Wanted). Memᴰ w.0 names) (children ix name extras)
  pub is_narrow :
      (name : Text) (extras : List Text)
      → Memᴰ name names
      → length (children ix name extras) ≤ width

-- The steps that the names not seen yet can still cause.
abbrev budget : ℕ → List Text → List Text → ℕ
budget width [] seen = 0
budget width (n ∷ names) seen =
    let rest = budget width names seen in if contains n seen then rest else suc (width + rest)

budget-start : (width : ℕ) (names : List Text) → budget width names [] ≡ length names * suc width
budget-start width [] = omega arith
budget-start width (n ∷ names) = grind (arith, budget-start width names)

budget-seen :
    (width : ℕ) (names seen : List Text) (name : Text)
    → budget width names (name ∷ seen) ≤ budget width names seen
budget-seen width [] seen name = omega arith
budget-seen width (n ∷ names) seen name = ground (arith, budget-seen width names seen name)

budget-drops :
    (width : ℕ) (names seen : List Text) (name : Text)
    → Memᴰ name names
    → contains name seen ≡ false
    → suc (width + budget width names (name ∷ seen)) ≤ budget width names seen
budget-drops width [] seen name m h = elim m [ ]
budget-drops width (n ∷ names) seen name (Memᴰ.head e) h =
    ground (arith, budget-seen width names seen name, text_eq_refl n, e)
budget-drops width (n ∷ names) seen name (Memᴰ.tail m) h =
    ground (arith, budget-drops width names seen name m h)

length-push :
    (more pending : List Wanted) → length (push_all more pending) ≡ length more + length pending
length-push [] pending = omega arith
length-push (w ∷ more) pending = omega (arith, length-push more (w ∷ pending))

walk-ends :
    (ix : Index) (seeds : List Wanted) (all : List Text) (width : ℕ)
    → Universe ix seeds all width
    → (fuel : ℕ) (pending : List Wanted) (seen : List Text)
    → All (λ (w : Wanted). Memᴰ w.0 all) pending
    → budget width all seen + length pending < fuel
    → (names : List Text) × (walk ix fuel pending seen ≡ some names)
unfolding walk
walk-ends ix seeds all width u zero pending seen r h = absurd (omega arith)
walk-ends ix seeds all width u (suc fuel) [] seen r h = (seen, refl)
walk-ends ix seeds all width u (suc fuel) ((name, extras) ∷ pending) seen (m, r) h =
    elim (Bool-cases (contains name seen)) [
      | inl e ↦
          let (names, f) = walk-ends ix seeds all width u fuel pending seen r (omega arith) in
          (names, walk-again ix fuel name extras pending seen e ∙ f)
      | inr e ↦
          let more = children ix name extras in
          let (names, f) =
            walk-ends ix seeds all width u fuel (push_all more pending) (name ∷ seen)
              (All-push (λ (w : Wanted). Memᴰ w.0 all) more pending (u.has_children name extras m)
                r)
              (omega (
                arith,
                length-push more pending,
                u.is_narrow name extras m,
                budget-drops width all seen name m e,
              )) in
          (names, walk-first ix fuel name extras pending seen e ∙ f)
    ]

length-map : (ix : Index) (seeds : List Wanted) → length (map (seed_of ix) seeds) ≡ length seeds
length-map ix [] = refl
length-map ix (w ∷ seeds) = ap suc (length-map ix seeds)

-- Where finitely many names hold the seeds and the children of each name, and no distribution has
-- more than `width` children, a walk of more than `names * (width + 1) + seeds` steps ends, and
-- finds a closure that has every seed, in which every name was reached from the seeds with some
-- extras and all that it requires at these extras is in the closure.
pub installed_closure-ends :
    (ix : Index) (seeds : List Wanted) (all : List Text) (width fuel : ℕ)
    → Universe ix seeds all width
    → length all * suc width + length seeds < fuel
    → (names : List Text) × (installed_closure ix fuel seeds ≡ some names)
      × All (λ (w : Wanted). Has names (seed_of ix w).0) seeds
      × All (Explored ix seeds names) names
unfolding installed_closure
installed_closure-ends ix seeds all width fuel u h =
    let inside = λ (w : Wanted). Memᴰ w.0 all in
    let (names, e) =
      walk-ends ix seeds all width u fuel (seeded ix seeds) []
        (All-push inside (map (seed_of ix) seeds) [] (All-map inside (seed_of ix) seeds u.has_seeds)
          tt)
        (omega (
          arith,
          budget-start width all,
          length-push (map (seed_of ix) seeds) [],
          length-map ix seeds,
        )) in
    let (a, b) = closure_closed ix fuel seeds names e in (names, e, a, b)
