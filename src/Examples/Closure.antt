-- ===== src/Examples/Closure.antt =====
-- Runs of the walk over requirements on small indexes. A distribution's name is one letter.
use mathlib.Core.List.{Memᴰ}
use borromean_rings.Base.{
  ◌≡◌, refl, true, false, Option, none, some, List, [], ◌∷◌, All, arith, nat_eq, if◌then◌else◌,
  subst, sym, length, ◌≤◌,
}
use borromean_rings.Base.Text.{is_space}
use borromean_rings.Closure.Requirement.{
  Text, Unicode, text_eq, normalise, requirement_name, requirement_extras, is_optional,
}
use borromean_rings.Closure.Walk.{Wanted, Index, children, children_of, walk, installed_closure}
use borromean_rings.Closure.Reach.{Explored}
use borromean_rings.Closure.Fuel.{Universe}
use borromean_rings.Base.{◌+◌, ◌*◌, ◌<◌}
use borromean_rings.Json.{Value, str, array, object, Fields, member, no_members, item, no_items}
use borromean_rings.Closure.Declared.{
  table, answer, attribute_error, groups, want_entries, want_groups, declared_requirements,
  project_closure,
}
use borromean_rings.Closure.Declared.Asked.{
  IsAsked, IsDeclared, requirements, declared_requirements-IsAsked,
}
use borromean_rings.Closure.Declared.Closed.{HasNamed, project_closure-closed}

abbrev a : Text
a = 97 ∷ []

abbrev b : Text
b = 98 ∷ []

abbrev c : Text
c = 99 ∷ []

abbrev ascii : Unicode
ascii = record { lower = λ s. s; is_word = λ n. nat_eq n 95 }

-- `c; extra == "x"`
abbrev c_for_x : Text
c_for_x = 99 ∷ 59 ∷ 32 ∷ 101 ∷ 120 ∷ 116 ∷ 114 ∷ 97 ∷ 32 ∷ 61 ∷ 61 ∷ 32 ∷ 34 ∷ 120 ∷ 34 ∷ []

-- `B.c[x, y] >= 1`
abbrev with_extras : Text
with_extras = 66 ∷ 46 ∷ 99 ∷ 91 ∷ 120 ∷ 44 ∷ 32 ∷ 121 ∷ 93 ∷ 32 ∷ 62 ∷ 61 ∷ 32 ∷ 49 ∷ []

abbrev requires_of : Text → Option (List Text)
requires_of [] = none
requires_of (l ∷ name) =
    if nat_eq l 97 then some (c_for_x ∷ []) else if nat_eq l 98 then some (a ∷ []) else none

abbrev index : Index
index = record { unicode = ascii; requires = requires_of }

name_test : requirement_name ascii with_extras ≡ some (66 ∷ 45 ∷ 99 ∷ [])
unfolding requirement_name is_space
name_test = refl

extras_test : requirement_extras ascii with_extras ≡ (120 ∷ []) ∷ (121 ∷ []) ∷ []
unfolding requirement_extras is_space
extras_test = refl

optional_test : is_optional ascii c_for_x [] ≡ true
unfolding is_optional is_space
optional_test = refl

wanted_test : is_optional ascii c_for_x ((120 ∷ []) ∷ []) ≡ false
unfolding is_optional is_space
wanted_test = refl

-- `a[x]` alone brings `c` in; beside `b`, which requires `a`, it does not.
alone_test : installed_closure index 9 ((a, (120 ∷ []) ∷ []) ∷ []) ≡ some (c ∷ a ∷ [])
unfolding installed_closure children children_of walk text_eq normalise is_optional requirement_name
    requirement_extras is_space
alone_test = refl

beside_test : installed_closure index 9 ((a, (120 ∷ []) ∷ []) ∷ (b, []) ∷ []) ≡ some (a ∷ b ∷ [])
unfolding installed_closure children children_of walk text_eq normalise is_optional requirement_name
    requirement_extras is_space
beside_test = refl

abbrev chain_requires : Text → Option (List Text)
chain_requires [] = none
chain_requires (l ∷ name) =
    if nat_eq l 97 then some (c ∷ []) else if nat_eq l 98 then some (a ∷ []) else none

abbrev chain : Index
chain = record { unicode = ascii; requires = chain_requires }

abbrev names : List Text
names = a ∷ b ∷ c ∷ []

-- What is shown of each of the three names holds of a listed name.
each : (P : Text → Type 0) → P a → P b → P c → (name : Text) → Memᴰ name names → P name
each P p q r name (Memᴰ.head e) = subst P (sym e) p
each P p q r name (Memᴰ.tail (Memᴰ.head e)) = subst P (sym e) q
each P p q r name (Memᴰ.tail (Memᴰ.tail (Memᴰ.head e))) = subst P (sym e) r
each P p q r name (Memᴰ.tail (Memᴰ.tail (Memᴰ.tail m))) = elim m [ ]

in_a : Memᴰ a names
in_a = Memᴰ.head refl

in_c : Memᴰ c names
in_c = Memᴰ.tail (Memᴰ.tail (Memᴰ.head refl))

chain-Universe : Universe chain ((b, []) ∷ []) names 1
unfolding children children_of text_eq normalise is_optional requirement_name requirement_extras
    is_space
chain-Universe = record {
  has_seeds = (Memᴰ.tail (Memᴰ.head refl), tt);
  has_children = λ name extras m.
      each (λ n. All (λ (w : Wanted). Memᴰ w.0 names) (children chain n extras)) (in_c, tt)
        (in_a, tt) tt name m;
  is_narrow = λ name extras m.
      each (λ n. length (children chain n extras) ≤ 1) (omega arith) (omega arith) (omega arith)
        name m;
}

-- `[project]` with `dependencies = ["b >= 1"]`, and no other group.
abbrev manifest : Fields
manifest =
    member "project"
      (object (member "dependencies" (array (item (str "b >= 1") no_items)) no_members)) no_members

abbrev found : List (Option Value)
found = some (array (item (str "b >= 1") no_items)) ∷ none ∷ []

manifest-groups : groups manifest ≡ answer found
unfolding groups
manifest-groups = refl

manifest_wants : want_groups ascii found [] ≡ (b, []) ∷ []
unfolding want_groups want_entries requirement_name requirement_extras is_space text_eq
manifest_wants = refl

broken_test :
    declared_requirements ascii (table (member "project" (str "x") no_members)) ≡ attribute_error
unfolding declared_requirements groups
broken_test = refl

declared_requirements-IsAsked_example :
    (wanted : List Wanted) × (declared_requirements ascii (table manifest) ≡ answer wanted)
    × (wanted ≡ want_groups ascii found [])
    × All (IsAsked ascii wanted) (requirements found)
    × All (IsDeclared ascii (requirements found)) wanted
declared_requirements-IsAsked_example =
    declared_requirements-IsAsked ascii manifest found manifest-groups

manifest-Universe : Universe chain (want_groups ascii found []) names 1
manifest-Universe = rw manifest_wants chain-Universe

enough : length names * 2 + length (want_groups ascii found []) < 8
enough = rw manifest_wants (omega arith)

project_closure-closed_example :
    (closure : List Text) × (project_closure chain 8 (table manifest) ≡ answer (some closure))
    × All (λ e. HasNamed chain closure (requirement_name ascii e)) (requirements found)
    × All (Explored chain (want_groups ascii found []) closure) closure
project_closure-closed_example =
    project_closure-closed chain manifest found names 1 8 manifest-groups manifest-Universe enough
