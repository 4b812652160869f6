-- ===== src/Examples/Architecture.antt =====
-- Import graphs and contracts at concrete inputs.
use borromean_rings.Base.{
  String, ◌≡◌, refl, ◌↔◌, ◌⊎◌, true, false, none, some, List, [], ◌∷◌, All, elem,
}
use borromean_rings.Base.Names.{sorted_names}
use borromean_rings.Architecture.{Graph, imports_of, deps_of, modules}
use borromean_rings.Architecture.Imports.{import_names, import_from, Sources, build_import_graph}
use borromean_rings.Architecture.Cycles.{find_cycles, visit, color_of, stack_from, add_cycle}
use borromean_rings.Architecture.Cycles.Layers.{Layered}
use borromean_rings.Architecture.Cycles.Closed.{IsCycle, find_cycles-IsCycle}
use borromean_rings.Architecture.Cycles.Ends.{find_cycles-Layered}
use borromean_rings.Architecture.Contracts.{Contracts, evaluate}
use borromean_rings.Architecture.Contracts.Kept.{ImportsNone, evaluate-ok}
use borromean_rings.Architecture.Coupling.{fan_in, worst_fan_out}

abbrev sources : Sources
sources =
    ("__init__", [])
    ∷ ("lane", import_names ("meta.spine" ∷ "json" ∷ []) ∷ [])
    ∷ ("spine", [])
    ∷ ("verdict", import_from (some "meta.lane") 0 [] ∷ import_from none 1 ("spine" ∷ []) ∷ [])
    ∷ []

abbrev layered : Graph
layered = ("lane", "spine" ∷ []) ∷ ("spine", []) ∷ ("verdict", "lane" ∷ "spine" ∷ []) ∷ []

graph_test : build_import_graph "meta" sources ≡ layered
unfolding build_import_graph
graph_test = refl

abbrev looped : Graph
looped = ("a", "b" ∷ []) ∷ ("b", "c" ∷ "x" ∷ []) ∷ ("c", "b" ∷ []) ∷ []

cycle_test : find_cycles looped ≡ ("b" ∷ "c" ∷ []) ∷ []
unfolding find_cycles sorted_names color_of visit imports_of add_cycle stack_from
cycle_test = refl

find_cycles-IsCycle_example : All (IsCycle looped) (find_cycles looped)
find_cycles-IsCycle_example = find_cycles-IsCycle looped

find_cycles-Layered_example :
    (order : List String) × Layered layered order × All (λ m. elem m order ≡ true) (modules layered)
unfolding find_cycles sorted_names color_of visit imports_of
find_cycles-Layered_example = find_cycles-Layered layered refl

abbrev contracts : Contracts
contracts = record {
  leaves = "spine" ∷ [];
  priv = "verdict" ∷ [];
  forbidden = ("spine", "lane") ∷ [];
  forbid_cycles = true;
}

evaluate-ok_example : ((evaluate layered contracts).ok ≡ true) ↔ (
    All (λ m. deps_of layered m ≡ []) contracts.leaves
    × All
        (λ m. (elem m contracts.priv ≡ true) ⊎ ImportsNone layered contracts.priv m)
        (modules layered)
    × All
        (λ (edge : String × String). elem edge.1 (deps_of layered edge.0) ≡ false)
        contracts.forbidden
    × ((contracts.forbid_cycles ≡ false) ⊎ (find_cycles layered ≡ [])))
evaluate-ok_example = evaluate-ok layered contracts

evaluate_test : (evaluate layered contracts).ok ≡ true
unfolding evaluate imports_of color_of visit
evaluate_test = refl

fan_in_test : fan_in layered ≡ ("lane", 1) ∷ ("spine", 2) ∷ ("verdict", 0) ∷ []
unfolding fan_in
fan_in_test = refl

worst_test : worst_fan_out "meta" sources ≡ (2, "verdict")
unfolding worst_fan_out
worst_test = refl
