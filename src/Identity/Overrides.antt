-- ===== src/Identity/Overrides.antt =====
-- The identity that a command line states itself (git_identity.py): the spellings of an override.
use borromean_rings.Base.{
  String, Bool, ◌||◌, ◌&&◌, Option, none, some, List, [], ◌∷◌, ◌++◌, ◌==◌, if◌then◌else◌,
}
use borromean_rings.Base.Decimal.{strip}
use borromean_rings.Words.{
  starts_with, cut_front, remove_prefix, has_char, before_char, after_char, glue,
}
use borromean_rings.Trunk.Config.{Mapping, lookup}

abbrev pub author_env_vars : List String
author_env_vars =
    "GIT_AUTHOR_NAME" ∷ "GIT_AUTHOR_EMAIL" ∷ "GIT_COMMITTER_NAME" ∷ "GIT_COMMITTER_EMAIL" ∷ []

abbrev pub override_markers : List String
override_markers =
    "--author" ∷ "-c user." ∷ "-cuser." ∷ "--config-env=" ∷ "GIT_CONFIG_KEY_" ∷ "GIT_CONFIG_COUNT"
    ∷ author_env_vars

-- What an override states; `opaque_key` is a key whose value stands in an environment variable.
pub data Kind : Type 0 where
  opaque_key : Kind
  author_value : Kind
  email_value : Kind
  name_value : Kind

abbrev pub Override : Type 0
Override = Kind × String

-- The address inside `Name <addr>`, or the value itself.
unfoldable pub email_of : String → String
email_of value =
    if has_char 60 value && has_char 62 value
    then strip (after_char 60 (before_char 62 value))
    else strip value

unfoldable pub name_of : String → String
name_of value = if has_char 60 value then strip (before_char 60 value) else ""

unfoldable pub ends_with : String → String → Bool
ends_with String.[] suffix = "" == suffix
ends_with (String.◌∷◌ c s) suffix = String.◌∷◌ c s == suffix || ends_with s suffix

-- `_env_override` at the variables
unfoldable pub env_override : List String → String → Option Override
unfolding ends_with starts_with after_char
env_override [] arg = none
env_override (env ∷ envs) arg =
    let rest = env_override envs arg in
    if starts_with arg (glue env "=")
    then some (if ends_with env "_EMAIL" then email_value else name_value, after_char 61 arg)
    else rest

abbrev kind_of : String → Kind
kind_of key = if key == "user.email" then email_value else name_value

abbrev is_user_key : String → Bool
is_user_key key = key == "user.email" || key == "user.name"

abbrev assigned : String → Override
assigned text = (kind_of (before_char 61 text), after_char 61 text)

abbrev config_env_key : String → String
config_env_key arg = before_char 61 (after_char 61 arg)

unfoldable pub override_in_arg : String → String → Option Override
unfolding starts_with remove_prefix before_char after_char env_override
override_in_arg arg next =
    if arg == "--author"
    then some (author_value, next)
    else if starts_with arg "--author="
    then some (author_value, after_char 61 arg)
    else if arg == "-c" && (starts_with next "user.email=" || starts_with next "user.name=")
    then some (assigned next)
    else if starts_with arg "--config-env="
    then if is_user_key (config_env_key arg) then some (opaque_key, config_env_key arg) else none
    else if starts_with arg "-cuser.email=" || starts_with arg "-cuser.name="
    then some (assigned (remove_prefix arg "-c"))
    else env_override author_env_vars arg

-- `sink[number] = value`
unfoldable pub set_item : String → String → Mapping → Mapping
set_item key value [] = (key, value) ∷ []
set_item key value ((k, v) ∷ entries) =
    let rest = set_item key value entries in
    if k == key then (k, value) ∷ entries else (k, v) ∷ rest

abbrev set_assignment : Option String → Mapping → Mapping
set_assignment none sink = sink
set_assignment (some text) sink = set_item (before_char 61 text) (after_char 61 text) sink

-- The keys, or the values, that the arguments number.
unfoldable pub numbered_from : String → List String → Mapping → Mapping
unfolding cut_front set_item before_char after_char
numbered_from prefix [] sink = sink
numbered_from prefix (arg ∷ args) sink =
    numbered_from prefix args (set_assignment (cut_front arg prefix) sink)

abbrev numbered_value : String → Option String → Override
numbered_value key none = (opaque_key, key)
numbered_value key (some value) = (kind_of key, value)

unfoldable pub user_pairs : Mapping → Mapping → List Override
unfolding lookup
user_pairs [] values = []
user_pairs ((number, key) ∷ keys) values =
    let rest = user_pairs keys values in
    if is_user_key key then numbered_value key (lookup number values) ∷ rest else rest

unfoldable pub config_env_pairs : List String → List Override
unfolding numbered_from user_pairs
config_env_pairs tokens =
    user_pairs (numbered_from "GIT_CONFIG_KEY_" tokens [])
      (numbered_from "GIT_CONFIG_VALUE_" tokens [])

abbrev pub add_override : Option Override → List Override → List Override
add_override none found = found
add_override (some override) found = override ∷ found

abbrev pub next_of : List String → String
next_of [] = ""
next_of (next ∷ rest) = next

unfoldable pub arg_overrides : List String → List Override
unfolding override_in_arg
arg_overrides [] = []
arg_overrides (arg ∷ args) = add_override (override_in_arg arg (next_of args)) (arg_overrides args)

unfoldable pub overrides_in : List String → List Override
unfolding config_env_pairs arg_overrides
overrides_in tokens = config_env_pairs tokens ++ arg_overrides tokens
