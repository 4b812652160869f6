-- ===== src/Executor.antt =====
-- When two receipts mean the same (executor.py: receipt_differences).
pub mod Agreeing
use Prim.Native.String
use borromean_rings.Base.{
  String, Bool, not, ◌||◌, Option, none, some, List, [], ◌∷◌, ◌++◌, elem, if◌then◌else◌,
}
use borromean_rings.Base.Names.{sorted_names}
use borromean_rings.Words.{starts_with}
use borromean_rings.Json.{Fields, member, no_members, Value, get}

abbrev pub volatile_fields : List String
volatile_fields = "log" ∷ "content_sha256" ∷ "duration_ms" ∷ []

-- The fields that are compared.
unfoldable pub comparable : List String → Fields → Fields
unfolding starts_with
comparable ignored no_members = no_members
comparable ignored (member key v receipt) =
    let rest = comparable ignored receipt in
    if elem key ignored || starts_with key "executor" then rest else member key v rest

abbrev pub keys_of : Fields → List String
keys_of no_members = []
keys_of (member key v receipt) = key ∷ keys_of receipt

pub data Difference : Type 0 where
  only_reference only_candidate : String → Value → Difference
  unequal : String → Value → Value → Difference

-- `equal` is Python's `==` on decoded values.
abbrev pub difference_at :
    (Value → Value → Bool) → String → Option Value → Option Value → List Difference
difference_at equal key none none = []
difference_at equal key (some a) none = only_reference key a ∷ []
difference_at equal key none (some b) = only_candidate key b ∷ []
difference_at equal key (some a) (some b) = if equal a b then [] else unequal key a b ∷ []

unfoldable pub differences_at :
    (Value → Value → Bool) → Fields → Fields → List String → List Difference
differences_at equal left right [] = []
differences_at equal left right (key ∷ keys) =
    difference_at equal key (get key left) (get key right) ++ differences_at equal left right keys

abbrev pub differences_between : (Value → Value → Bool) → Fields → Fields → List Difference
differences_between equal left right =
    differences_at equal left right (sorted_names (keys_of left ++ keys_of right))

unfoldable pub receipt_differences :
    (Value → Value → Bool) → List String → Fields → Fields → List Difference
unfolding comparable differences_at sorted_names
receipt_differences equal ignored reference candidate =
    differences_between equal (comparable ignored reference) (comparable ignored candidate)
