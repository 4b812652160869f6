-- ===== src/Architecture/Imports.antt =====
-- The graph that the import statements of a package make (architecture.py).
use borromean_rings.Base.{
  ℕ, zero, suc, String, not, Option, none, some, List, [], ◌∷◌, ◌++◌, ◌==◌, elem, keep,
  if◌then◌else◌,
}
use borromean_rings.Words.{split_char}
use borromean_rings.Architecture.{Graph}

-- What `ast.walk` meets: the names of an import, the module, level and names of an import from one,
-- or anything else.
pub data Node : Type 0 where
  import_names : List String → Node
  import_from : Option String → ℕ → List String → Node
  other_node : Node

abbrev first_part : List String → String
first_part [] = ""
first_part (p ∷ parts) = p

-- `parts[1]` of a dotted name whose first part is the package, `root`.
abbrev second_part : String → List String → List String
second_part root [] = []
second_part root (p ∷ []) = []
second_part root (p ∷ q ∷ parts) = if p == root then q ∷ [] else []

unfoldable pub heads_of_names : String → List String → List String
unfolding split_char
heads_of_names root [] = []
heads_of_names root (name ∷ names) =
    second_part root (split_char 46 name) ++ heads_of_names root names

unfoldable pub first_parts : List String → List String
unfolding split_char
first_parts [] = []
first_parts (name ∷ names) = first_part (split_char 46 name) ∷ first_parts names

unfoldable pub referenced_heads : String → Node → List String
unfolding heads_of_names first_parts split_char
referenced_heads root (import_names names) = heads_of_names root names
referenced_heads root (import_from none level names) = first_parts names
referenced_heads root (import_from (some dotted) zero names) =
    second_part root (split_char 46 dotted)
referenced_heads root (import_from (some dotted) (suc level) names) =
    first_part (split_char 46 dotted) ∷ []
referenced_heads root other_node = []

-- The set as a list, in which a head may stand twice.
unfoldable pub imported_siblings : String → List String → List Node → List String
unfolding referenced_heads
imported_siblings root siblings [] = []
imported_siblings root siblings (node ∷ nodes) =
    keep (λ head. elem head siblings) (referenced_heads root node)
    ++ imported_siblings root siblings nodes

-- The stems of the files of a package, with the nodes of their trees.
abbrev pub Sources : Type 0
Sources = List (String × List Node)

unfoldable pub stems : Sources → List String
stems [] = []
stems ((stem, nodes) ∷ sources) =
    let rest = stems sources in if stem == "__init__" then rest else stem ∷ rest

unfoldable pub graph_of : String → List String → Sources → Graph
unfolding imported_siblings
graph_of root siblings [] = []
graph_of root siblings ((stem, nodes) ∷ sources) =
    let rest = graph_of root siblings sources in
    if stem == "__init__"
    then rest
    else (stem, keep (λ head. not (head == stem)) (imported_siblings root siblings nodes)) ∷ rest

unfoldable pub build_import_graph : String → Sources → Graph
unfolding graph_of stems
build_import_graph root sources = graph_of root (stems sources) sources
