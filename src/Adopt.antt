-- ===== src/Adopt.antt =====
-- The plan that moves a governed project to newer checks, the guess of its package and the seed of
-- its coverage (adopt.py).
pub mod Settled
pub mod Required
use mathlib.Core.List.{reverse}
use borromean_rings.Json.{Value, int, real, Fields, get}
use borromean_rings.Base.{
  Option, none, some, String, Bool, not, ◌&&◌, List, [], ◌∷◌, ◌++◌, elem, keep,
}

abbrev pub recommended_checks : List String
recommended_checks =
    "12_secrets" ∷ "11_changelog" ∷ "32_complexity" ∷ "33_coupling" ∷ "45_docstrings"
    ∷ "01_source_coherence" ∷ "21_archetype" ∷ "19_context_budget" ∷ "18_api_contracts"
    ∷ "17_prior_art" ∷ "04_self_description" ∷ []

-- The checks that have a baseline.
abbrev pub ratchets : List String
ratchets = "32_complexity" ∷ "33_coupling" ∷ "45_docstrings" ∷ "19_context_budget" ∷ []

pub record AdoptionPlan : Type 0 where
  pub add_checks : List String
  pub seed_baselines : List String
  pub needs_changelog : Bool
  pub new_required : List String

unfoldable pub plan_adoption : List String → Bool → List String → AdoptionPlan
plan_adoption current_required has_changelog recommended =
    let added = keep (λ check. not (elem check current_required)) recommended in
    record {
      add_checks = added;
      seed_baselines = keep (λ check. elem check ratchets) added;
      needs_changelog = elem "11_changelog" added && not has_changelog;
      new_required = current_required ++ added;
    }

-- An entry of the source directory: its name, whether it is a directory, and whether it holds a
-- file `__init__.py`.
pub record Child : Type 0 where
  pub name : String
  pub is_dir : Bool
  pub has_init : Bool

abbrev pub only_name : List Child → String
only_name (child ∷ []) = child.name
only_name children = ""

-- `none` is a root that is no directory; `str.isidentifier` and `keyword.iskeyword` are parameters.
-- The names are sorted in the source, which does not matter for one.
unfoldable pub infer_package : (String → Bool) → (String → Bool) → Option (List Child) → String
infer_package is_identifier is_keyword none = ""
infer_package is_identifier is_keyword (some children) = only_name (
    keep
      (λ (child : Child).
        child.is_dir
        && (child.has_init && (is_identifier child.name && not (is_keyword child.name))))
      children)

-- `repr(float(value))` is the parameter `float_repr`.
abbrev pub measured : (Value → String) → Option Value → Option String
measured float_repr (some (int n)) = some (float_repr (int n))
measured float_repr (some (real x)) = some (float_repr (real x))
measured float_repr value = none

abbrev pub or_earlier : Option String → Option String → Option String
or_earlier none earlier = earlier
or_earlier (some seed) earlier = some seed

abbrev pub first_measured : (Value → String) → List Fields → Option String
first_measured float_repr [] = none
first_measured float_repr (receipt ∷ earlier) =
    or_earlier (measured float_repr (get "coverage_percent" receipt))
      (first_measured float_repr earlier)

unfoldable pub coverage_seed : (Value → String) → List Fields → Option String
coverage_seed float_repr receipts = first_measured float_repr (reverse receipts)
