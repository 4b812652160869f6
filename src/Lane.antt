-- ===== src/Lane.antt =====
-- Which verification a gate run narrows (lane.py).
pub mod Narrowing
pub mod Arguments
use Prim.Native.Char.{Char, code}
use Prim.Native.String
use borromean_rings.Base.{
  ℕ, String, Bool, true, false, not, ◌||◌, ◌&&◌, Option, none, some, List, [], ◌∷◌, ◌==◌, elem, leb,
  nat_eq, map, if◌then◌else◌,
}
use borromean_rings.Base.Decimal.{strip}
use borromean_rings.Words.{glue, join_with}

abbrev pub fast : String
fast = "fast"

abbrev pub full : String
full = "full"

-- `env.get(name) == value`
abbrev pub is_set : (String → Option String) → String → String → Bool
is_set env name value = elim (env name) [ none ↦ false | some v ↦ v == value ]

pub record Resolved : Type 0 where
  pub lane : String
  pub heavy : Bool
  pub scheduled : Bool

unfoldable pub resolve_lane : List String → (String → Option String) → Resolved
resolve_lane args env =
    let scheduled = is_set env "BORROMEANRINGS_SCHEDULED" "1" || elem "--scheduled" args in
    let heavy = scheduled || (is_set env "BORROMEANRINGS_HEAVY" "1" || elem "--heavy" args) in
    record {
      lane = if elem "--fast" args && not heavy then fast else full;
      heavy = heavy;
      scheduled = scheduled;
    }

unfoldable pub lane_from_env : (String → Option String) → String
lane_from_env env = if is_set env "BORROMEANRINGS_LANE" fast then fast else full

-- `[A-Za-z0-9._]` and `[A-Za-z0-9._-]`
abbrev pub is_first : ℕ → Bool
is_first c =
    leb 65 c && leb c 90
    || leb 97 c && leb c 122
    || leb 48 c && leb c 57
    || nat_eq c 46
    || nat_eq c 95

abbrev pub is_inner : ℕ → Bool
is_inner c = is_first c || nat_eq c 45

-- `_SAFE_PATH.fullmatch`; the flag is set where a segment begins.
unfoldable pub is_safe_from : Bool → String → Bool
is_safe_from begins String.[] = not begins
is_safe_from true (String.◌∷◌ c s) = is_first (code c) && is_safe_from false s
is_safe_from false (String.◌∷◌ c s) =
    let next = is_safe_from true s in
    let inside = is_safe_from false s in
    if nat_eq (code c) 47 then next else is_inner (code c) && inside

-- `".." in path.split("/")`: whether the text up to the next slash, or to the end, is `..`.
unfoldable pub is_parent : String → Bool
is_parent String.[] = false
is_parent (String.◌∷◌ c String.[]) = false
is_parent (String.◌∷◌ c (String.◌∷◌ d String.[])) = nat_eq (code c) 46 && nat_eq (code d) 46
is_parent (String.◌∷◌ c (String.◌∷◌ d (String.◌∷◌ e s))) =
    nat_eq (code c) 46 && (nat_eq (code d) 46 && nat_eq (code e) 47)

unfoldable pub parent_after_slash : String → Bool
unfolding is_parent
parent_after_slash String.[] = false
parent_after_slash (String.◌∷◌ c s) = nat_eq (code c) 47 && is_parent s || parent_after_slash s

unfoldable pub has_parent : String → Bool
has_parent path = is_parent path || parent_after_slash path

-- A path that `validate_fast_paths` keeps.
unfoldable pub is_kept : String → Bool
is_kept path = not (path == "") && (is_safe_from true path && not (has_parent path))

abbrev pub push_path : String → Option (List String) → Option (List String)
push_path path none = none
push_path path (some paths) = some (path ∷ paths)

-- `none` is the ValueError.
unfoldable pub validate_fast_paths : List String → Option (List String)
validate_fast_paths [] = some []
validate_fast_paths (raw ∷ paths) =
    let path = strip raw in
    let clean = push_path path (validate_fast_paths paths) in if is_kept path then clean else none

-- `config` is reduced to the declared fast paths.
unfoldable pub fast_test_paths : List String → String → Option (List String)
fast_test_paths declared lane = if lane == fast then validate_fast_paths declared else some []

abbrev pub label_of : Bool → Option (List String) → Option String
label_of true (some (path ∷ paths)) = some fast
label_of true none = none
label_of is_fast paths = some full

unfoldable pub effective_lane : List String → String → Option String
effective_lane declared lane = label_of (lane == fast) (fast_test_paths declared lane)

-- `shlex.quote`: a text of the characters `[A-Za-z0-9_@%+=:,./-]` stands for itself.
unfoldable pub needs_quotes : String → Bool
needs_quotes String.[] = false
needs_quotes (String.◌∷◌ c s) =
    let rest = needs_quotes s in
    if is_inner (code c)
      || nat_eq (code c) 37
      || leb 43 (code c) && leb (code c) 44
      || nat_eq (code c) 47
      || nat_eq (code c) 58
      || nat_eq (code c) 61
      || nat_eq (code c) 64
    then rest
    else true

unfoldable pub escape_quotes : String → String
escape_quotes String.[] = ""
escape_quotes (String.◌∷◌ c s) =
    let rest = escape_quotes s in
    if nat_eq (code c) 39 then glue "'\"'\"'" rest else String.◌∷◌ c rest

unfoldable pub quote : String → String
quote s =
    if s == "" then "''" else if needs_quotes s then glue "'" (glue (escape_quotes s) "'") else s

abbrev pub join_quoted : Option (List String) → Option String
join_quoted none = none
join_quoted (some paths) = some (join_with " " (map quote paths))

unfoldable pub fast_pytest_args : List String → String → Option String
fast_pytest_args declared lane = join_quoted (fast_test_paths declared lane)

unfoldable pub fast_lane_summary : List String → String
fast_lane_summary paths =
    glue "FAST LANE — only " (glue (join_with ", " paths) "; full suite pre-merge")
