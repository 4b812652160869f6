-- ===== src/Trunk/Planted.antt =====
-- Commands that plant an alias, and what shell aliases run (trunk_aliases.py).
use Prim.Native.String.{◌++◌ as text_append}
use borromean_rings.Base.{
  String, ◌||◌, ◌&&◌, Option, none, some, List, [], ◌∷◌, ◌++◌, ◌==◌, elem, any, if◌then◌else◌,
}
use borromean_rings.Base.Decimal.{strip}
use borromean_rings.Words.{starts_with, remove_prefix, has_char, contains, strip_front, split_char}
use borromean_rings.Trunk.{Shell}
use borromean_rings.Trunk.Command.{positional_of}
use borromean_rings.Trunk.Push.{Reason, plants_alias, sets_alias, alias_with_config}
use borromean_rings.Trunk.Config.{
  Mapping, has_verb, is_alias_key, drop_six, following, config_pairs, search_verb,
}

unfoldable pub planted_alias : Shell → Mapping → Option (String × String)
planted_alias shell [] = none
planted_alias shell ((key, value) ∷ pairs) =
    let rest = planted_alias shell pairs in
    if is_alias_key shell key && (has_verb shell value || has_char 33 value)
    then some (drop_six key, value)
    else rest

abbrev config_reads : List String
config_reads =
    "--get" ∷ "--get-all" ∷ "--get-regexp" ∷ "-l" ∷ "--list" ∷ "--unset" ∷ "--unset-all" ∷ []

unfoldable pub alias_set : Shell → List String → Option (String × String)
alias_set shell [] = none
alias_set shell (word ∷ words) =
    let rest = alias_set shell words in
    if is_alias_key shell word then some (drop_six word, following words) else rest

unfoldable pub config_write : Shell → List String → Option (String × String)
unfolding alias_set
config_write shell args =
    if any (λ a. elem a config_reads) args then none else alias_set shell (positional_of args)

abbrev set_reason : Shell → Option (String × String) → Option Reason
set_reason shell none = none
set_reason shell (some (name, value)) =
    if has_verb shell value || starts_with value "!" then some (sets_alias name value) else none

abbrev write_reason : Shell → String → List String → Option (String × String) → Option Reason
write_reason shell sub args (some (name, value)) = some (plants_alias name value)
write_reason shell sub args none =
    if sub == "config" then set_reason shell (config_write shell args) else none

unfoldable pub alias_write_violation : Shell → List String → String → List String → Option Reason
unfolding planted_alias
alias_write_violation shell argv sub args =
    write_reason shell sub args (planted_alias shell (config_pairs shell argv))

-- `definition[1:]` without its mark, then the quoted arguments, stripped.
unfoldable pub shell_alias_command : Shell → String → List String → String
unfolding remove_prefix strip
shell_alias_command shell definition args =
    strip (text_append (remove_prefix definition "!") (text_append " " (shell.join args)))

-- A word cut at every `=` and then at every `:`.
unfoldable pub pieces_at_colons : List String → List String
unfolding split_char
pieces_at_colons [] = []
pieces_at_colons (word ∷ words) = split_char 58 word ++ pieces_at_colons words

unfoldable pub pieces : String → List String
unfolding pieces_at_colons strip_front
pieces arg = pieces_at_colons (split_char 61 (strip_front 43 arg))

abbrev name_matching : Shell → String → List String → Option String
name_matching shell name [] = none
name_matching shell name (p ∷ protected) =
    let rest = name_matching shell name protected in if shell.fnmatch p name then some p else rest

-- The first protected branch that a piece names; an empty piece names none.
unfoldable pub piece_names : Shell → List String → List String → Option String
unfolding remove_prefix
piece_names shell protected [] = none
piece_names shell protected (piece ∷ rest) =
    let name = remove_prefix piece "refs/heads/" in
    elim (if name == "" then none else name_matching shell name protected) [
      | none ↦ piece_names shell protected rest
      | some hit ↦ some hit
    ]

unfoldable pub args_name_protected : Shell → List String → List String → Option String
unfolding piece_names pieces
args_name_protected shell protected [] = none
args_name_protected shell protected (arg ∷ args) = elim (piece_names shell protected (pieces arg)) [
  | none ↦ args_name_protected shell protected args
  | some hit ↦ some hit
]

abbrev config_mentions : List String
config_mentions = "alias." ∷ "[alias]" ∷ ".git/config" ∷ ".gitconfig" ∷ []

unfoldable pub alias_floor : Shell → String → Option Reason
unfolding contains search_verb
alias_floor shell command =
    if any (λ m. contains command m) config_mentions && has_verb shell command
    then some alias_with_config
    else none
