-- ===== src/Charter.antt =====
-- The session charter: its parsing and its validation (charter.py).
pub mod Parse
pub mod Accepted
use Prim.Native.String
use Prim.Native.String.{◌++◌ as text_append}
use borromean_rings.Base.{
  ℕ, suc, String, Bool, true, false, not, ◌||◌, ◌&&◌, Option, none, some, List, [], ◌∷◌, ◌++◌, ◌==◌,
  elem, any, if◌then◌else◌,
}
use borromean_rings.Base.Names.{name_lt}
use borromean_rings.Base.Decimal.{strip, show}
use borromean_rings.Words.{split_words}
use borromean_rings.Rewrite.Assess.{strip_end}

-- The field, and why it is not acceptable.
pub record Violation : Type 0 where
  pub field : String
  pub reason : String

pub record Charter : Type 0 where
  pub goal : String
  pub stakes : String
  pub done_when : List String
  pub stop_when : List String
  pub may_not : List String
  pub owner : String
  pub extras : List (String × String)

abbrev hedge_phrases : List String
hedge_phrases =
    "works" ∷ "it works" ∷ "done" ∷ "looks good" ∷ "good enough" ∷ "seems fine" ∷ "should work"
    ∷ "mostly done" ∷ "basically done" ∷ []

abbrev hedge_words : List String
hedge_words =
    "probably" ∷ "mostly" ∷ "basically" ∷ "roughly" ∷ "seems" ∷ "hopefully" ∷ "largely" ∷ "somewhat"
    ∷ []

-- The order of violations: by field, then by reason.
abbrev violation_lt : Violation → Violation → Bool
violation_lt a b = name_lt a.field b.field || a.field == b.field && name_lt a.reason b.reason

unfoldable pub insert_violation : Violation → List Violation → List Violation
insert_violation v [] = v ∷ []
insert_violation v (w ∷ ws) =
    let rest = insert_violation v ws in if violation_lt w v then w ∷ rest else v ∷ w ∷ ws

-- `tuple(sorted(problems))`
unfoldable pub sorted_violations : List Violation → List Violation
unfolding insert_violation
sorted_violations [] = []
sorted_violations (v ∷ vs) = insert_violation v (sorted_violations vs)

unfoldable pub blank_reason : String → Option String
unfolding strip
blank_reason value =
    if value == ""
    then some "missing or empty"
    else if strip value == ""
    then some "whitespace only"
    else none

abbrev joined : List String → String
joined [] = ""
joined (w ∷ []) = w
joined (w ∷ v ∷ words) = text_append w (text_append " " (joined (v ∷ words)))

-- The dot and the exclamation mark.
abbrev end_marks : List ℕ
end_marks = 46 ∷ 33 ∷ []

unfoldable pub normalize : (String → String) → String → String
unfolding strip strip_end split_words
normalize lower item = joined (split_words (strip_end end_marks (strip (lower item))))

unfoldable pub is_hedge : (String → String) → String → Bool
unfolding normalize split_words
is_hedge lower item =
    let normalized = normalize lower item in
    elem normalized hedge_phrases || any (λ w. elem w hedge_words) (split_words normalized)

abbrev pub add_reason : String → Option String → List Violation → List Violation
add_reason field none rest = rest
add_reason field (some reason) rest = record { field = field; reason = reason } ∷ rest

abbrev stakes_reason : String → Option String
stakes_reason stakes =
    if stakes == ""
    then some "missing or empty; must be \"low\" or \"high\""
    else if not (elem stakes ("low" ∷ "high" ∷ []))
    then some (text_append "must be \"low\" or \"high\", got \"" (text_append stakes "\""))
    else none

unfoldable pub check_strings : Charter → List Violation
unfolding blank_reason
check_strings c =
    add_reason "goal" (blank_reason c.goal)
      (add_reason "owner" (blank_reason c.owner) (add_reason "stakes" (stakes_reason c.stakes) []))

abbrev pub at_index : String → ℕ → String
at_index key index = text_append key (text_append "[" (text_append (show index) "]"))

abbrev pub hedge_reason : (String → String) → Bool → String → Option String
hedge_reason lower hedges item =
    if hedges && is_hedge lower item
    then some (text_append "hedge, not a predicate: \"" (text_append item "\""))
    else none

abbrev pub or_reason : Option String → Option String → Option String
or_reason none later = later
or_reason (some reason) later = some reason

-- The items from an index on; the flag says that hedges are looked for.
unfoldable pub check_items : (String → String) → Bool → String → ℕ → List String → List Violation
unfolding blank_reason is_hedge
check_items lower hedges key index [] = []
check_items lower hedges key index (item ∷ items) =
    add_reason (at_index key index) (or_reason (blank_reason item) (hedge_reason lower hedges item))
      (check_items lower hedges key (suc index) items)

abbrev pub check_list : (String → String) → Bool → String → List String → List Violation
check_list lower hedges key [] =
    record { field = key; reason = "missing or empty; list at least one item" } ∷ []
check_list lower hedges key (item ∷ items) = check_items lower hedges key 0 (item ∷ items)

unfoldable pub check_lists : (String → String) → Charter → List Violation
unfolding check_items
check_lists lower c =
    check_list lower true "done_when" c.done_when
    ++ check_list lower false "stop_when" c.stop_when
    ++ check_list lower false "may_not" c.may_not

unfoldable pub unknown_keys : List String → List (String × String) → List Violation
unknown_keys allowed [] = []
unknown_keys allowed ((key, value) ∷ extras) =
    let rest = unknown_keys allowed extras in
    if elem key allowed then rest else record { field = key; reason = "unknown key" } ∷ rest

-- `extras.get(key, "")`
unfoldable pub extra : String → List (String × String) → String
extra key [] = ""
extra key ((k, value) ∷ extras) = if k == key then value else extra key extras

abbrev pub required_reason : Option String → Option String
required_reason none = none
required_reason (some reason) = some (text_append "required at stakes \"high\"; " reason)

unfoldable pub missing_extras : List String → List (String × String) → List Violation
unfolding blank_reason extra
missing_extras [] extras = []
missing_extras (key ∷ allowed) extras =
    add_reason key (required_reason (blank_reason (extra key extras)))
      (missing_extras allowed extras)

abbrev pub at_high : Bool → List Violation → List Violation
at_high true missing = missing
at_high false missing = []

unfoldable pub check_extras : List String → Charter → List Violation
unfolding unknown_keys missing_extras
check_extras allowed c =
    unknown_keys allowed c.extras ++ at_high (c.stakes == "high") (missing_extras allowed c.extras)

-- `allowed` are the fields that the configuration wants at high stakes.
unfoldable pub validate : (String → String) → List String → Charter → List Violation
unfolding check_strings check_lists check_extras sorted_violations
validate lower allowed c =
    sorted_violations (check_strings c ++ check_lists lower c ++ check_extras allowed c)
