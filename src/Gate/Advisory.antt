-- ===== src/Gate/Advisory.antt =====
-- What the receipts outside the expected set say (verdict.py). The files of the run come in the order
-- of their paths, each with its stem and its JSON value, `none` where it cannot be read.
pub mod Outside
use borromean_rings.Base.{
  String, Bool, true, false, Option, none, some, List, [], ◌∷◌, ◌==◌, elem, if◌then◌else◌,
}
use borromean_rings.Json.{Value, str, real, object, array, int, bool, null, Fields, get}
use borromean_rings.Gate.Status.{is_failing}
use borromean_rings.Gate.Evidence.{present}

abbrev pub File : Type 0
File = String × Option Value

-- `value == text`
abbrev pub is_text : Option Value → String → Bool
is_text (some (str s)) text = s == text
is_text value text = false

-- The receipt of a file, if it is an object that names its own file.
abbrev pub own_receipt : String → Option Value → Option Fields
own_receipt stem (some (object receipt)) =
    if is_text (get "check" receipt) stem then some receipt else none
own_receipt stem value = none

abbrev pub failing_status : String → Option Value → Option (String × String)
failing_status stem (some (str status)) = if is_failing status then some (stem, status) else none
failing_status stem status = none

abbrev pub failing_receipt : String → Option Fields → Option (String × String)
failing_receipt stem none = none
failing_receipt stem (some receipt) = failing_status stem (get "status" receipt)

abbrev pub advisory_of : List String → File → Option (String × String)
advisory_of expected (stem, value) =
    if elem stem expected then none else failing_receipt stem (own_receipt stem value)

unfoldable pub advisory_failures : List File → List String → List (String × String)
advisory_failures files expected = present (advisory_of expected) files

abbrev pub hollow_receipt : String → Option Fields → Option String
hollow_receipt stem none = none
hollow_receipt stem (some receipt) =
    if is_text (get "status" receipt) "noop" then some stem else none

abbrev pub hollow_of : List String → File → Option String
hollow_of expected (stem, value) =
    if elem stem expected then none else hollow_receipt stem (own_receipt stem value)

unfoldable pub hollow_outside : List File → List String → List String
hollow_outside files expected = present (hollow_of expected) files
