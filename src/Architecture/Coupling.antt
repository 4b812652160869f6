-- ===== src/Architecture/Coupling.antt =====
-- The coupling of the modules of a package (coupling.py).
pub mod Worst
use borromean_rings.Base.{
  ℕ, suc, String, Bool, ◌||◌, ◌&&◌, List, [], ◌∷◌, ◌==◌, ltb, nat_eq, length, map, if◌then◌else◌,
}
use borromean_rings.Base.Names.{name_lt, sorted_names}
use borromean_rings.Architecture.{Graph, modules}
use borromean_rings.Architecture.Imports.{Sources, build_import_graph}

abbrev pub Counts : Type 0
Counts = List (String × ℕ)

-- The size of the set of imports.
abbrev pub count_of : String × List String → String × ℕ
count_of (name, deps) = (name, length (sorted_names deps))

unfoldable pub fan_out : Graph → Counts
unfolding sorted_names
fan_out graph = map count_of graph

unfoldable pub bump : String → Counts → Counts
bump target [] = []
bump target ((m, n) ∷ counts) =
    let rest = bump target counts in if m == target then (m, suc n) ∷ counts else (m, n) ∷ rest

unfoldable pub bump_all : List String → Counts → Counts
unfolding bump
bump_all [] counts = counts
bump_all (target ∷ targets) counts = bump_all targets (bump target counts)

unfoldable pub bump_graph : Graph → Counts → Counts
unfolding bump_all sorted_names
bump_graph [] counts = counts
bump_graph ((name, deps) ∷ graph) counts = bump_graph graph (bump_all (sorted_names deps) counts)

unfoldable pub fan_in : Graph → Counts
unfolding bump_graph
fan_in graph = bump_graph graph (map (λ m. (m, 0)) (modules graph))

-- The order of the pairs that `max` compares: the count, then the name.
abbrev pub beats : String × ℕ → String × ℕ → Bool
beats (a, n) (b, k) = ltb k n || nat_eq k n && name_lt b a

abbrev pub better : String × ℕ → String × ℕ → String × ℕ
better best next = if beats next best then next else best

unfoldable pub best_of : String × ℕ → Counts → String × ℕ
best_of best [] = best
best_of best (next ∷ counts) = best_of (better best next) counts

abbrev pub worst_of : Counts → ℕ × String
worst_of [] = (0, "")
worst_of (first ∷ counts) = let best = best_of first counts in (best.1, best.0)

unfoldable pub worst_fan_out : String → Sources → ℕ × String
unfolding fan_out best_of build_import_graph
worst_fan_out root sources = worst_of (fan_out (build_import_graph root sources))
