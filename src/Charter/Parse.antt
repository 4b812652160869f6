-- ===== src/Charter/Parse.antt =====
-- The decoding of a charter (charter.py: parse_charter). The decoded TOML is the input.
pub mod Printed
use Prim.Native.String.{◌++◌ as text_append}
use borromean_rings.Base.{
  ℕ, suc, String, Bool, true, false, not, ◌&&◌, Option, none, some, List, [], ◌∷◌, ◌++◌, ◌==◌, elem,
  if◌then◌else◌,
}
use borromean_rings.Base.Decimal.{show}
use borromean_rings.Base.Names.{sorted_names}
use borromean_rings.Json.{
  Fields, member, no_members, Items, Value, str, real, object, array, int, bool, null, get, to_list,
}
use borromean_rings.Charter.{Violation, Charter, at_index, sorted_violations}

-- `type(v).__name__` of a decoded value.
abbrev type_name : Value → String
type_name (str s) = "str"
type_name (real x) = "float"
type_name (object fields) = "dict"
type_name (array items) = "list"
type_name (int n) = "int"
type_name (bool b) = "bool"
type_name null = "NoneType"

abbrev not_string : String → Value → Violation
not_string field v = record {
  field = field;
  reason = text_append "must be a string, got " (type_name v);
}

-- A value that is read, and the problems with it.
abbrev pub string_of : String → Option Value → String × List Violation
string_of key none = ("", [])
string_of key (some (str s)) = (s, [])
string_of key (some v) = ("", not_string key v ∷ [])

unfoldable pub read_string : Fields → String → String × List Violation
read_string raw key = string_of key (get key raw)

abbrev add_item : String → ℕ → Value → List String × List Violation → List String × List Violation
add_item key index (str s) (items, problems) = (s ∷ items, problems)
add_item key index v (items, problems) = (items, not_string (at_index key index) v ∷ problems)

unfoldable pub read_items : String → ℕ → List Value → List String × List Violation
read_items key index [] = ([], [])
read_items key index (v ∷ vs) = add_item key index v (read_items key (suc index) vs)

abbrev pub list_of : String → Option Value → List String × List Violation
list_of key none = ([], [])
list_of key (some (array items)) = read_items key 0 (to_list items)
list_of key (some v) = (
  [],
  record { field = key; reason = text_append "must be a list of strings, got " (type_name v) } ∷ [],
)

unfoldable pub read_list : Fields → String → List String × List Violation
unfolding read_items
read_list raw key = list_of key (get key raw)

abbrev core_keys : List String
core_keys = "goal" ∷ "owner" ∷ "done_when" ∷ "stop_when" ∷ "may_not" ∷ "stakes" ∷ []

unfoldable pub other_keys : Fields → List String
other_keys no_members = []
other_keys (member key v raw) =
    let rest = other_keys raw in if elem key core_keys then rest else key ∷ rest

unfoldable pub read_extras : Fields → List String → List (String × String) × List Violation
unfolding read_string
read_extras raw [] = ([], [])
read_extras raw (key ∷ keys) =
    let (value, problems) = read_string raw key in
    let (extras, later) = read_extras raw keys in ((key, value) ∷ extras, problems ++ later)

-- A charter, or the violations that CharterError carries.
pub data Parsed : Type 0 where
  charter_error : List Violation → Parsed
  parsed : Charter → Parsed

abbrev pub unless_problems : List Violation → Charter → Parsed
unless_problems [] c = parsed c
unless_problems (v ∷ vs) c = charter_error (sorted_violations (v ∷ vs))

unfoldable pub parse_raw : Fields → Parsed
unfolding read_string read_list read_extras other_keys sorted_names
parse_raw raw =
    let (goal, p) = read_string raw "goal" in
    let (owner, q) = read_string raw "owner" in
    let (stakes, r) = read_string raw "stakes" in
    let (done_when, s) = read_list raw "done_when" in
    let (stop_when, t) = read_list raw "stop_when" in
    let (may_not, u) = read_list raw "may_not" in
    let (extras, w) = read_extras raw (sorted_names (other_keys raw)) in
    unless_problems (p ++ q ++ r ++ s ++ t ++ u ++ w) (record {
      goal = goal;
      stakes = stakes;
      done_when = done_when;
      stop_when = stop_when;
      may_not = may_not;
      owner = owner;
      extras = extras;
    })

abbrev file_error : String → Parsed
file_error reason = charter_error (record { field = "file"; reason = reason } ∷ [])

-- What `tomllib.loads` makes of a text: a table, or the message of its TOMLDecodeError.
pub data Toml : Type 0 where
  table : Fields → Toml
  decode_error : String → Toml

unfoldable pub parse_charter : (String → Toml) → String → Parsed
unfolding parse_raw
parse_charter loads content = elim (loads content) [
  | table raw ↦ parse_raw raw
  | decode_error e ↦ file_error (text_append "not valid TOML: " e)
]

-- A path: no file, a file that cannot be read, with the message of the OSError, or its text.
pub data CharterFile : Type 0 where
  no_file : CharterFile
  unreadable contents : String → CharterFile

unfoldable pub load_charter : (String → Toml) → String → CharterFile → Parsed
unfolding parse_charter
load_charter loads path no_file = file_error (text_append "charter not found at " path)
load_charter loads path (unreadable e) =
    file_error (text_append "charter unreadable at " (text_append path (text_append ": " e)))
load_charter loads path (contents content) = parse_charter loads content

unfoldable pub missing_charter_reminder : String → String
missing_charter_reminder path =
    text_append "borromeanRings: [charter] is enabled but "
      (text_append path " is missing — write it before governed work")
