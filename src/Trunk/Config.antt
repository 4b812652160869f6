-- ===== src/Trunk/Config.antt =====
-- The configuration that a git command line states itself, with the aliases in it
-- (trunk_aliases.py).
use Prim.Native.Char.{code}
use Prim.Native.String.{◌++◌ as text_append}
use borromean_rings.Base.{
  ℕ, String, Bool, true, false, not, ◌||◌, ◌&&◌, Option, none, some, List, [], ◌∷◌, ◌++◌, ◌==◌, any,
  leb, map, nat_eq, if◌then◌else◌,
}
use borromean_rings.Base.Names.{sorted_names}
use borromean_rings.Words.{starts_with, remove_prefix, cut_front, has_char, before_char, after_char}
use borromean_rings.Trunk.{Shell}

-- A mapping of names to texts; the entry that stands first holds.
abbrev pub Mapping : Type 0
Mapping = List (String × String)

unfoldable pub lookup : String → Mapping → Option String
lookup name [] = none
lookup name ((n, text) ∷ entries) = if n == name then some text else lookup name entries

-- Characters that `[\w-]` matches.
abbrev is_word_or_dash : Shell → ℕ → Bool
is_word_or_dash shell c =
    leb 97 c && leb c 122
    || leb 65 c && leb c 90
    || leb 48 c && leb c 57
    || nat_eq c 95
    || nat_eq c 45
    || leb 128 c && shell.is_letter c

abbrev pub alias_verbs : List String
alias_verbs =
    "push" ∷ "commit" ∷ "merge" ∷ "rebase" ∷ "reset" ∷ "branch" ∷ "update-ref" ∷ "symbolic-ref" ∷ []

abbrev ends_word : Shell → Option String → Bool
ends_word shell none = false
ends_word shell (some String.[]) = true
ends_word shell (some (String.◌∷◌ c s)) = not (is_word_or_dash shell (code c))

-- `ALIAS_VERBS.search`; the flag says that no word character stands before.
unfoldable pub search_verb : Shell → Bool → String → Bool
unfolding cut_front
search_verb shell boundary String.[] = false
search_verb shell boundary (String.◌∷◌ c s) =
    boundary && any (λ v. ends_word shell (cut_front (String.◌∷◌ c s) v)) alias_verbs
    || search_verb shell (not (is_word_or_dash shell (code c))) s

abbrev pub has_verb : Shell → String → Bool
has_verb shell text = search_verb shell true text

-- `key.lower().startswith("alias.")`
abbrev pub is_alias_key : Shell → String → Bool
is_alias_key shell key = starts_with (shell.lower key) "alias."

-- `key[len("alias."):]`
abbrev pub drop_six : String → String
drop_six
      (String.◌∷◌ a (String.◌∷◌ b (String.◌∷◌ c (String.◌∷◌ d (String.◌∷◌ e (String.◌∷◌ f s)))))) =
    s
drop_six s = ""

-- A pair at the first `=` of a text: `text.partition("=")`.
abbrev at_equals : String → String × String
at_equals text = (before_char 61 text, after_char 61 text)

-- What a word of the command line states: a numbered key or value of the environment, the
-- parameters of the environment, or an option.
pub data Stated : Type 0 where
  config_key config_value : String → String → Stated
  parameters : String → Stated
  option : String → String → Stated
  no_config : Stated

abbrev opaque_value : String → String
opaque_value var = text_append "!<env " (text_append var ">")

abbrev env_option : String × String → Stated
env_option (key, var) = option key (opaque_value var)

abbrev as_option : String × String → Stated
as_option (key, value) = option key value

unfoldable pub option_stated : String → String → Stated
unfolding starts_with has_char remove_prefix before_char after_char
option_stated word following =
    if word == "-c" && has_char 61 following
    then as_option (at_equals following)
    else if starts_with word "-c" && (not (starts_with word "--") && has_char 61 word)
    then as_option (at_equals (remove_prefix word "-c"))
    else if starts_with word "--config-env="
    then env_option (at_equals (remove_prefix word "--config-env="))
    else no_config

abbrev as_key : String × String → Stated
as_key (n, text) = config_key n text

abbrev as_value : String × String → Stated
as_value (n, text) = config_value n text

unfoldable pub stated : String → String → Stated
unfolding option_stated
stated token following =
    if starts_with token "GIT_CONFIG_KEY_"
    then as_key (at_equals (remove_prefix token "GIT_CONFIG_KEY_"))
    else if starts_with token "GIT_CONFIG_VALUE_"
    then as_value (at_equals (remove_prefix token "GIT_CONFIG_VALUE_"))
    else if starts_with token "GIT_CONFIG_PARAMETERS="
    then parameters (after_char 61 token)
    else option_stated token following

-- The pairs stated in order, and the numbered keys and values, the last one of a number first.
pub record Config : Type 0 where
  pub pairs : Mapping
  pub keys : Mapping
  pub values : Mapping

abbrev parameter_pairs_of : List String → Mapping
parameter_pairs_of [] = []
parameter_pairs_of (w ∷ ws) =
    let rest = parameter_pairs_of ws in if has_char 61 w then at_equals w ∷ rest else rest

abbrev split_parameters_from : Option (List String) → Mapping
split_parameters_from none = ("alias.?", "!<unparseable>") ∷ []
split_parameters_from (some words) = parameter_pairs_of words

unfoldable pub split_parameters : Shell → String → Mapping
unfolding has_char before_char after_char
split_parameters shell text = split_parameters_from (shell.split text)

abbrev state : Shell → Stated → Config → Config
state shell (config_key n text) c = record c { keys = c.keys ++ (n, text) ∷ [] }
state shell (config_value n text) c = record c { values = c.values ++ (n, text) ∷ [] }
state shell (parameters text) c = record c { pairs = split_parameters shell text ++ c.pairs }
state shell (option key value) c = record c { pairs = (key, value) ∷ c.pairs }
state shell no_config c = c

abbrev pub following : List String → String
following [] = ""
following (t ∷ tokens) = t

unfoldable pub config_of : Shell → List String → Config
unfolding stated
config_of shell [] = record { pairs = []; keys = []; values = [] }
config_of shell (token ∷ tokens) =
    state shell (stated token (following tokens)) (config_of shell tokens)

-- `sorted(env["KEY"])`, of the numbers that have a key.
unfoldable pub numbers : Mapping → List String
unfolding sorted_names
numbers keys = sorted_names (map (λ (entry : String × String). entry.0) keys)

abbrev or_empty : Option String → String
or_empty none = ""
or_empty (some s) = s

abbrev numbered : Config → List String → Mapping
numbered c [] = []
numbered c (n ∷ ns) = (or_empty (lookup n c.keys), or_empty (lookup n c.values)) ∷ numbered c ns

unfoldable pub config_pairs : Shell → List String → Mapping
unfolding config_of lookup numbers
config_pairs shell argv = let c = config_of shell argv in c.pairs ++ numbered c (numbers c.keys)

-- The aliases among pairs; a later pair comes first, since it replaces an earlier one.
unfoldable pub aliases_among : Shell → Mapping → Mapping → Mapping
aliases_among shell [] found = found
aliases_among shell ((key, value) ∷ pairs) found =
    aliases_among shell pairs
      (if is_alias_key shell key then (drop_six key, value) ∷ found else found)

unfoldable pub inline_aliases : Shell → List String → Mapping
unfolding config_pairs aliases_among
inline_aliases shell argv = aliases_among shell (config_pairs shell argv) []
