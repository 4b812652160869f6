-- ===== src/Examples/Charter.antt =====
-- Charters and adoption plans at concrete inputs.
use borromean_rings.Base.{String, ◌≡◌, refl, ◌↔◌, List, [], ◌∷◌}
use borromean_rings.Base.Text.{is_space}
use borromean_rings.Base.Decimal.{show, show_from, digit_char}
use borromean_rings.Charter.{Charter, validate}
use borromean_rings.Charter.Accepted.{IsAcceptable, validate-none}

abbrev a_charter : Charter
a_charter = record {
  goal = "No gate is skipped on changed inputs";
  stakes = "low";
  done_when = "the gate is green" ∷ "basically done." ∷ [];
  stop_when = "the tests cannot be run" ∷ [];
  may_not = "push to main" ∷ [];
  owner = "a person";
  extras = [];
}

abbrev same : String → String
same s = s

validate-none_example : (validate same [] a_charter ≡ []) ↔ IsAcceptable same [] a_charter
validate-none_example = validate-none same [] a_charter

hedge_test :
    validate same [] a_charter
    ≡ record { field = "done_when[1]"; reason = "hedge, not a predicate: \"basically done.\"" } ∷ []
unfolding validate is_space show show_from digit_char
hedge_test = refl

abbrev required : List String
required = "12_secrets" ∷ "20_tests" ∷ []
