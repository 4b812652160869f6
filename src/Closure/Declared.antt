-- ===== src/Closure/Declared.antt =====
-- What a manifest declares (closure.py: declared_requirements, project_closure). `tomllib` and the
-- file system are given by what reading the manifest finds.
pub mod Asked
pub mod Closed
use Prim.Native.Char.{code}
use Prim.Native.String
use borromean_rings.Base.{
  ℕ, String, Bool, true, false, Option, none, some, List, [], ◌∷◌, ◌++◌, map, if◌then◌else◌,
}
use borromean_rings.Json.{
  Value, str, array, object, Fields, member, no_members, get, to_list, truthy,
}
use borromean_rings.Closure.Requirement.{
  Text, Unicode, text_eq, requirement_name, requirement_extras,
}
use borromean_rings.Closure.Walk.{Wanted, Index, installed_closure}

-- Reading the manifest: an OSError, bytes that are no UTF-8, text that is no TOML, or a table.
pub data Manifest : Type 0 where
  os_error unicode_error toml_error : Manifest
  table : Fields → Manifest

-- `closure_unavailable` is ClosureUnavailable; the two others are exceptions that nothing catches.
pub data Outcome {ℓ} (A : Type ℓ) : Type ℓ where
  closure_unavailable decode_error attribute_error : Outcome A
  answer : A → Outcome A

infixl 5 ◌>>=◌
abbrev pub ◌>>=◌ {ℓ κ} : {A : Type ℓ} {B : Type κ} → Outcome A → (A → Outcome B) → Outcome B
closure_unavailable >>= f = closure_unavailable
decode_error >>= f = decode_error
attribute_error >>= f = attribute_error
answer a >>= f = f a

abbrev pub read_table : Manifest → Outcome Fields
read_table os_error = closure_unavailable
read_table unicode_error = decode_error
read_table toml_error = closure_unavailable
read_table (table data_) = answer data_

-- `.get` or `.values()` of what is no table is an AttributeError.
abbrev pub as_table : Option Value → Outcome Fields
as_table none = answer no_members
as_table (some (object fields)) = answer fields
as_table v = attribute_error

-- `v or {}`, then the same
abbrev pub or_table : Option Value → Outcome Fields
or_table v = if truthy v then as_table v else answer no_members

-- `d.values()`
abbrev pub values : Fields → List (Option Value)
values no_members = []
values (member k v fs) = some v ∷ values fs

abbrev pub code_points : String → Text
code_points String.[] = []
code_points (String.◌∷◌ c s) = code c ∷ code_points s

abbrev pub add_string : Value → List Text → List Text
add_string (str entry) entries = code_points entry ∷ entries
add_string v entries = entries

abbrev pub strings_of : List Value → List Text
strings_of [] = []
strings_of (v ∷ vs) = add_string v (strings_of vs)

-- `_strings`
abbrev pub strings : Option Value → List Text
strings (some (array items)) = strings_of (to_list items)
strings group = []

-- The groups of a manifest, in the order in which they are read.
unfoldable pub groups : Fields → Outcome (List (Option Value))
groups data_ = do
  project ← as_table (get "project" data_)
  optional ← or_table (get "optional-dependencies" project)
  development ← or_table (get "dependency-groups" data_)
  build ← or_table (get "build-system" data_)
  answer (
      get "dependencies" project
      ∷ (values optional ++ (values development ++ get "requires" build ∷ [])))

-- `wanted.setdefault(name, set()).update(extras)`
abbrev pub want : Text → List Text → List Wanted → List Wanted
want name extras [] = (name, extras) ∷ []
want name extras ((n, es) ∷ wanted) =
    let rest = want name extras wanted in
    if text_eq n name then (n, es ++ extras) ∷ wanted else (n, es) ∷ rest

abbrev pub want_named : Option Text → List Text → List Wanted → List Wanted
want_named none extras wanted = wanted
want_named (some []) extras wanted = wanted
want_named (some (c ∷ name)) extras wanted = want (c ∷ name) extras wanted

-- The loop over the entries of one group, and over the groups.
unfoldable pub want_entries : Unicode → List Text → List Wanted → List Wanted
want_entries u [] wanted = wanted
want_entries u (entry ∷ entries) wanted =
    want_entries u entries
      (want_named (requirement_name u entry) (requirement_extras u entry) wanted)

unfoldable pub want_groups : Unicode → List (Option Value) → List Wanted → List Wanted
want_groups u [] wanted = wanted
want_groups u (group ∷ more) wanted = want_groups u more (want_entries u (strings group) wanted)

unfoldable pub declared_requirements : Unicode → Manifest → Outcome (List Wanted)
declared_requirements u manifest = do
  data_ ← read_table manifest
  found ← groups data_
  answer (want_groups u found [])

unfoldable pub declared_dependencies : Unicode → Manifest → Outcome (List Text)
declared_dependencies u manifest = do
  wanted ← declared_requirements u manifest
  answer (map (λ (w : Wanted). w.0) wanted)

-- `none` in an answer is that the fuel of the walk ran out.
unfoldable pub project_closure : Index → ℕ → Manifest → Outcome (Option (List Text))
project_closure ix fuel manifest = do
  wanted ← declared_requirements ix.unicode manifest
  answer (installed_closure ix fuel wanted)
