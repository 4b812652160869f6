-- ===== src/Examples/ApiDiff.antt =====
-- Interfaces and their differences at concrete inputs.
use borromean_rings.Base.{String, ◌≡◌, refl, none, List, [], ◌∷◌, All}
use borromean_rings.ApiDiff.{
  Arguments, Body, function, class_of, statement, no_statements, public_api, required_added,
  params_gone, removed, signature_at, names_of, breaking_changes,
}
use borromean_rings.ApiDiff.Compatible.{IsKeptUp, breaking_changes-keeps}

abbrev with_args : List String → Arguments
with_args names = record {
  positional = names;
  defaults = 0;
  vararg = none;
  kwonly = [];
  kwarg = none;
}

abbrev before_body : Body
before_body = statement (function "parse" (with_args ("text" ∷ []))) (
    statement (class_of "Box" (statement (function "open" (with_args ("self" ∷ []))) no_statements))
      (statement (function "_hidden" (with_args [])) no_statements))

abbrev after_body : Body
after_body = statement (function "parse" (with_args ("source" ∷ "strict" ∷ []))) no_statements

changes_test :
    breaking_changes (public_api before_body) (public_api after_body)
    ≡ removed "Box"
      ∷ removed "Box.open"
      ∷ required_added "parse" 1 2
      ∷ params_gone "parse" ("text" ∷ [])
      ∷ []
unfolding breaking_changes public_api
changes_test = refl

-- A parameter that callers may pass by its name, and a new one behind it with a default.
abbrev kept_body : Body
kept_body =
    statement (function "parse" (record (with_args ("text" ∷ "strict" ∷ [])) { defaults = 1 })) (
      statement
        (class_of "Box" (statement (function "open" (with_args ("self" ∷ []))) no_statements))
        no_statements)

kept : breaking_changes (public_api before_body) (public_api kept_body) ≡ []
unfolding breaking_changes public_api
kept = refl

-- A required parameter is added and another gets a default: no break is found.
moved_test :
    breaking_changes
      (public_api (statement (function "f" (with_args ("a" ∷ "b" ∷ []))) no_statements))
      (public_api (
        statement
          (function "f" (record (with_args ("a" ∷ "c" ∷ "b" ∷ [])) { defaults = 1 }))
          no_statements))
    ≡ []
unfolding breaking_changes public_api
moved_test = refl

breaking_changes-keeps_example :
    All
      (λ n.
        IsKeptUp (signature_at n (public_api before_body)) (signature_at n (public_api kept_body)))
      (names_of (public_api before_body))
breaking_changes-keeps_example =
    breaking_changes-keeps (public_api before_body) (public_api kept_body) kept
