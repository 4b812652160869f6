-- ===== src/Identity.antt =====
-- The declared git identity (git_identity.py): what the configuration, the authors of commits and
-- a command's own overrides may state.
pub mod Command
pub mod Declared
pub mod Guard
pub mod Overrides
use borromean_rings.Base.{
  String, Bool, ◌&&◌, not, ◌||◌, List, [], ◌∷◌, ◌++◌, ◌==◌, Option, none, some, if◌then◌else◌,
}
use borromean_rings.Words.{glue}

-- A field that is empty is unset.
pub record Identity : Type 0 where
  pub name : String
  pub email : String

abbrev pub is_set : String → Bool
is_set s = not (s == "")

unfoldable pub required_identity : String → String → String → Identity
required_identity name email require = record {
  name = if require == "email+name" then name else "";
  email = email;
}

unfoldable pub is_enforced : Identity → Bool
is_enforced declared = is_set declared.email || is_set declared.name

-- Whether a field that is declared has another value.
abbrev pub differs : String → String → Bool
differs declared actual = is_set declared && not (actual == declared)

-- A field of the configuration, the value shown for it, and the declared one.
pub data Problem : Type 0 where
  user_name : String → String → Problem
  user_email : String → String → Problem

abbrev shown : String → String
shown value = if is_set value then value else "(unset)"

abbrev pub problem_if : Bool → Problem → List Problem
problem_if b p = if b then p ∷ [] else []

-- `"; ".join(problems) or None`
abbrev pub or_none : List Problem → Option (List Problem)
or_none [] = none
or_none (p ∷ problems) = some (p ∷ problems)

unfoldable pub configured_violation : Identity → Identity → Option (List Problem)
unfolding is_enforced
configured_violation configured declared =
    let problems =
      problem_if (differs declared.name configured.name)
        (user_name (shown configured.name) declared.name)
      ++ problem_if (differs declared.email configured.email)
          (user_email (shown configured.email) declared.email) in
    if is_enforced declared then or_none problems else none

-- `f"{author.name} <{author.email}>"`
abbrev offender : Identity → String
offender author = glue author.name (glue " <" (glue author.email ">"))

unfoldable pub offenders : List Identity → Identity → List String
offenders [] declared = []
offenders (author ∷ authors) declared =
    let rest = offenders authors declared in
    if differs declared.name author.name || differs declared.email author.email
    then offender author ∷ rest
    else rest

unfoldable pub author_violations : List Identity → Identity → List String
unfolding is_enforced offenders
author_violations authors declared = if is_enforced declared then offenders authors declared else []
