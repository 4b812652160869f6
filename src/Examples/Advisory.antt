-- ===== src/Examples/Advisory.antt =====
-- The reports on receipts outside the expected set, on a small run.
use borromean_rings.Base.{String, ◌≡◌, refl, some, List, [], ◌∷◌}
use borromean_rings.Json.{Value, str, object, array, no_items, member, no_members}
use borromean_rings.Gate.Status.{is_failing}
use borromean_rings.Gate.Advisory.{File, advisory_failures, hollow_outside}

abbrev receipt : String → String → Value
receipt check status = object (member "check" (str check) (member "status" (str status) no_members))

abbrev run : List File
run =
    ("10_lint", some (receipt "10_lint" "fail"))
    ∷ ("30_extra", some (receipt "30_extra" "fail"))
    ∷ ("31_extra", some (receipt "31_extra" "noop"))
    ∷ ("scratch", some (array no_items))
    ∷ ("stolen", some (receipt "30_extra" "fail"))
    ∷ []

abbrev expected : List String
expected = "10_lint" ∷ []

advisory_test : advisory_failures run expected ≡ ("30_extra", "fail") ∷ []
unfolding advisory_failures is_failing
advisory_test = refl

hollow_test : hollow_outside run expected ≡ "31_extra" ∷ []
unfolding hollow_outside
hollow_test = refl
