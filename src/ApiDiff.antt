-- ===== src/ApiDiff.antt =====
-- The public interface of a module and its breaking changes (api_diff.py).
pub mod Compatible
use Prim.Native.String
use Prim.Native.String.{◌++◌ as text_append}
use borromean_rings.Base.{
  ℕ, ◌-◌, String, Bool, true, false, not, Option, none, some, List, [], ◌∷◌, ◌++◌, ◌==◌, elem, keep,
  map, length, ltb, if◌then◌else◌,
}
use borromean_rings.Base.Names.{sorted_names}
use borromean_rings.Words.{starts_with}

pub record Signature : Type 0 where
  pub kind : String
  pub params : List String
  pub required : ℕ

-- The arguments of a function: the positional ones, how many have a default, `*args`, the keyword
-- ones and `**kwargs`.
pub record Arguments : Type 0 where
  pub positional : List String
  pub defaults : ℕ
  pub vararg : Option String
  pub kwonly : List String
  pub kwarg : Option String

-- The statements of a body: functions, classes with their bodies, and all else.
mutual
  pub data Statement : Type 0 where
    function : String → Arguments → Statement
    class_of : String → Body → Statement
    other_statement : Statement

  pub data Body : Type 0 where
    statement : Statement → Body → Body
    no_statements : Body

abbrev starred : String → Option String → List String
starred stars none = []
starred stars (some arg) = text_append stars arg ∷ []

abbrev pub signature_of : Arguments → Signature
signature_of a = record {
  kind = "function";
  params = a.positional ++ starred "*" a.vararg ++ a.kwonly ++ starred "**" a.kwarg;
  required = length a.positional - a.defaults;
}

-- The names defined, in order; the last definition of a name holds.
abbrev pub Api : Type 0
Api = List (String × Signature)

abbrev class_signature : Signature
class_signature = record { kind = "class"; params = []; required = 0 }

unfoldable mutual
  unfolding starts_with

  pub visit_statement : String → Statement → Api
  visit_statement prefix (function name arguments) =
      if starts_with name "_" then [] else (text_append prefix name, signature_of arguments) ∷ []
  visit_statement prefix (class_of name body) =
      let inner = visit_body (text_append prefix (text_append name ".")) body in
      if starts_with name "_" then [] else (text_append prefix name, class_signature) ∷ inner
  visit_statement prefix other_statement = []

  pub visit_body : String → Body → Api
  visit_body prefix no_statements = []
  visit_body prefix (statement s body) = visit_statement prefix s ++ visit_body prefix body

unfoldable pub public_api : Body → Api
unfolding visit_body
public_api body = visit_body "" body

unfoldable pub signature_at : String → Api → Option Signature
signature_at name [] = none
signature_at name ((n, s) ∷ api) = elim (signature_at name api) [
  | none ↦ if n == name then some s else none
  | some later ↦ some later
]

pub data Break : Type 0 where
  removed : String → Break
  kind_changed : String → String → String → Break
  required_added : String → ℕ → ℕ → Break
  params_gone : String → List String → Break

abbrev pub required_break : String → Signature → Signature → List Break
required_break name before after =
    if ltb before.required after.required
    then required_added name before.required after.required ∷ []
    else []

abbrev pub gone_break : String → List String → List Break
gone_break name [] = []
gone_break name (p ∷ gone) = params_gone name (p ∷ gone) ∷ []

abbrev pub breaks_between : String → Signature → Signature → List Break
breaks_between name before after =
    if before.kind == after.kind
    then required_break name before after
      ++ gone_break name (keep (λ p. not (elem p after.params)) before.params)
    else kind_changed name before.kind after.kind ∷ []

abbrev pub breaks_of : String → Option Signature → Option Signature → List Break
breaks_of name none after = []
breaks_of name (some before) none = removed name ∷ []
breaks_of name (some before) (some after) = breaks_between name before after

unfoldable pub breaks_among : Api → Api → List String → List Break
unfolding signature_at
breaks_among old new [] = []
breaks_among old new (name ∷ names) =
    breaks_of name (signature_at name old) (signature_at name new) ++ breaks_among old new names

abbrev pub names_of : Api → List String
names_of api = map (λ (entry : String × Signature). entry.0) api

unfoldable pub breaking_changes : Api → Api → List Break
unfolding breaks_among sorted_names
breaking_changes old new = breaks_among old new (sorted_names (names_of old))
