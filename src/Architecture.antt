-- ===== src/Architecture.antt =====
-- The import graph of a package and the contracts on it (architecture.py, coupling.py).
pub mod Imports
pub mod Cycles
pub mod Contracts
pub mod Coupling
use borromean_rings.Base.{String, Option, none, some, List, [], ◌∷◌, ◌==◌, map, if◌then◌else◌}

-- The siblings that each module imports.
abbrev pub Graph : Type 0
Graph = List (String × List String)

unfoldable pub imports_of : Graph → String → Option (List String)
imports_of [] name = none
imports_of ((m, deps) ∷ graph) name = if m == name then some deps else imports_of graph name

abbrev or_none : Option (List String) → List String
or_none none = []
or_none (some deps) = deps

-- `graph.get(name, set())`
abbrev pub deps_of : Graph → String → List String
deps_of graph name = or_none (imports_of graph name)

abbrev pub modules : Graph → List String
modules graph = map (λ (entry : String × List String). entry.0) graph
