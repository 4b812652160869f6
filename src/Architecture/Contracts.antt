-- ===== src/Architecture/Contracts.antt =====
-- The declared contracts on the import graph (architecture.py: evaluate).
pub mod Kept
use borromean_rings.Base.{
  String, Bool, true, false, List, [], ◌∷◌, ◌++◌, elem, keep, map, if◌then◌else◌,
}
use borromean_rings.Base.Names.{sorted_names}
use borromean_rings.Architecture.{Graph, deps_of, modules}
use borromean_rings.Architecture.Cycles.{find_cycles}

-- A kind with what its detail names: the module and its imports, the importer and its target, or
-- the modules of a cycle.
pub data ArchViolation : Type 0 where
  leaf : String → List String → ArchViolation
  private_import forbidden_import : String → String → ArchViolation
  cycle : List String → ArchViolation

pub record ArchReport : Type 0 where
  pub ok : Bool
  pub violations : List ArchViolation

abbrev leaf_at : String → List String → List ArchViolation → List ArchViolation
leaf_at name [] rest = rest
leaf_at name (d ∷ ds) rest = leaf name (d ∷ ds) ∷ rest

unfoldable pub leaf_violations : Graph → List String → List ArchViolation
unfolding sorted_names
leaf_violations graph [] = []
leaf_violations graph (name ∷ leaves) =
    leaf_at name (sorted_names (deps_of graph name)) (leaf_violations graph leaves)

-- The violations of the modules listed; the graph's are taken in the order of their names.
unfoldable pub private_among : Graph → List String → List String → List ArchViolation
unfolding sorted_names
private_among graph priv [] = []
private_among graph priv (name ∷ names) =
    let rest = private_among graph priv names in
    if elem name priv
    then rest
    else map (private_import name) (keep (λ d. elem d priv) (sorted_names (deps_of graph name)))
      ++ rest

unfoldable pub private_violations : Graph → List String → List ArchViolation
unfolding private_among sorted_names
private_violations graph priv = private_among graph priv (sorted_names (modules graph))

unfoldable pub forbidden_violations : Graph → List (String × String) → List ArchViolation
forbidden_violations graph [] = []
forbidden_violations graph ((importer, target) ∷ forbidden) =
    let rest = forbidden_violations graph forbidden in
    if elem target (deps_of graph importer) then forbidden_import importer target ∷ rest else rest

unfoldable pub cycle_violations : Graph → List ArchViolation
unfolding find_cycles
cycle_violations graph = map cycle (find_cycles graph)

-- The contracts that a project declares.
pub record Contracts : Type 0 where
  pub leaves : List String
  pub priv : List String
  pub forbidden : List (String × String)
  pub forbid_cycles : Bool

abbrev pub all_violations : Graph → Contracts → List ArchViolation
all_violations graph c =
    leaf_violations graph c.leaves
    ++ private_violations graph c.priv
    ++ forbidden_violations graph c.forbidden
    ++ (if c.forbid_cycles then cycle_violations graph else [])

abbrev pub no_violation : List ArchViolation → Bool
no_violation [] = true
no_violation (v ∷ vs) = false

unfoldable pub evaluate : Graph → Contracts → ArchReport
unfolding leaf_violations private_violations forbidden_violations cycle_violations
evaluate graph c =
    let found = all_violations graph c in record { ok = no_violation found; violations = found }
