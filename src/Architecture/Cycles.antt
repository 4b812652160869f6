-- ===== src/Architecture/Cycles.antt =====
-- The search for import cycles (architecture.py: find_cycles).
pub mod Layers
pub mod Gray
pub mod Closed
pub mod Ends
use borromean_rings.Base.{
  ℕ, zero, suc, String, Bool, true, false, not, ◌&&◌, Option, none, some, List, [], ◌∷◌, ◌++◌, ◌==◌,
  elem, any, length, if◌then◌else◌,
}
use borromean_rings.Base.Names.{sorted_names}
use borromean_rings.Words.{is_some}
use borromean_rings.Architecture.{Graph, imports_of, deps_of, modules}

-- 1 and 2 in the source: on the stack, and done.
pub data Color : Type 0 where
  gray black : Color

abbrev pub Coloring : Type 0
Coloring = List (String × Color)

-- The color that was set last holds.
unfoldable pub color_of : Coloring → String → Option Color
color_of [] node = none
color_of ((n, c) ∷ coloring) node = if n == node then some c else color_of coloring node

-- The cycles found, each distinct as a set of nodes.
pub record State : Type 0 where
  pub color : Coloring
  pub found : List (List String)

abbrev pub subset : List String → List String → Bool
subset [] ys = true
subset (x ∷ xs) ys = elem x ys && subset xs ys

-- `frozenset(a) == frozenset(b)`
abbrev pub same_nodes : List String → List String → Bool
same_nodes a b = subset a b && subset b a

-- `found.setdefault(frozenset(cycle), cycle)`
unfoldable pub add_cycle : List String → List (List String) → List (List String)
add_cycle cycle found = if any (λ f. same_nodes f cycle) found then found else found ++ cycle ∷ []

-- `stack[stack.index(node):]`
unfoldable pub stack_from : String → List String → List String
stack_from node [] = []
stack_from node (n ∷ stack) =
    let rest = stack_from node stack in if n == node then n ∷ stack else rest

-- What is done with an import of the node on top of the stack; `visit` is the recursive call, and
-- `none` is that the fuel ran out in it.
abbrev pub at_color :
    (List String → String → State → Option State)
    → List String
    → String
    → State
    → Option Color
    → Option State
at_color visit stack next s (some gray) =
    some (record s { found = add_cycle (stack_from next stack) s.found })
at_color visit stack next s (some black) = some s
at_color visit stack next s none = visit stack next s

abbrev pub step :
    Graph
    → (List String → String → State → Option State)
    → List String
    → String
    → State
    → Option State
step graph visit stack next s =
    if is_some (imports_of graph next)
    then at_color visit stack next s (color_of s.color next)
    else some s

abbrev pub and_then : Option State → (State → Option State) → Option State
and_then none f = none
and_then (some s) f = f s

unfoldable pub each : (String → State → Option State) → List String → State → Option State
each f [] s = some s
each f (node ∷ nodes) s = and_then (f node s) (each f nodes)

abbrev pub finish : String → State → Option State
finish node s = some (record s { color = (node, black) ∷ s.color })

-- `visit`, on the stack that it pushes its node on. The fuel bounds its depth.
unfoldable pub visit : Graph → ℕ → List String → String → State → Option State
unfolding each
visit graph zero stack node s = none
visit graph (suc fuel) stack node s =
    let here = stack ++ node ∷ [] in
    and_then
      (each (step graph (visit graph fuel) here) (sorted_names (deps_of graph node))
        (record s { color = (node, gray) ∷ s.color }))
      (finish node)

abbrev pub start : Graph → ℕ → String → State → Option State
start graph fuel node s =
    if is_some (color_of s.color node) then some s else visit graph fuel [] node s

abbrev pub fresh : State
fresh = record { color = []; found = [] }

unfoldable pub search : Graph → ℕ → Option State
unfolding each
search graph fuel = each (start graph fuel) (sorted_names (modules graph)) fresh

abbrev pub cycles_of : Option State → List (List String)
cycles_of none = []
cycles_of (some s) = s.found

unfoldable pub find_cycles : Graph → List (List String)
unfolding search
find_cycles graph = cycles_of (search graph (suc (length (modules graph))))
