-- ===== src/Identity/Command.antt =====
-- The git invocations of a command line and their subcommands (git_identity.py).
pub mod Depth
use borromean_rings.Base.{
  ℕ, zero, suc, String, Bool, ◌||◌, ◌&&◌, not, Option, none, some, List, [], ◌∷◌, ◌==◌, elem,
  if◌then◌else◌,
}
use borromean_rings.Retry.Count.{count_chars}
use borromean_rings.Words.{
  starts_with, has_char, strip_front, after_last, join_continued, split_lines,
}
use borromean_rings.Trunk.Command.{segments_from, after_dash_c, append_found}

-- What the source takes from `shlex` and `re`: the tokens of a line with the shell's operators as
-- tokens, `none` where it cannot be lexed; whether a git invocation stands where a command starts;
-- and whether a text has the word commit or push.
pub record Lexer : Type 0 where
  pub tokenize : String → Option (List String)
  pub starts_git : String → Bool
  pub names_commit : String → Bool

abbrev git_global_with_value : List String
git_global_with_value =
    "-c" ∷ "-C" ∷ "--git-dir" ∷ "--work-tree" ∷ "--namespace" ∷ "--config-env" ∷ []

abbrev pub separators : List String
separators = "&&" ∷ "||" ∷ ";" ∷ "|" ∷ "&" ∷ "(" ∷ ")" ∷ "{" ∷ "}" ∷ []

abbrev wrappers : List String
wrappers =
    "env" ∷ "command" ∷ "builtin" ∷ "exec" ∷ "nohup" ∷ "time" ∷ "sudo" ∷ "nice" ∷ "then" ∷ "do"
    ∷ "else" ∷ []

abbrev pub shells : List String
shells = "sh" ∷ "bash" ∷ "zsh" ∷ "dash" ∷ "ksh" ∷ []

abbrev pub split_segments : List String → List (List String)
split_segments tokens = segments_from separators [] tokens

-- `token.rsplit("/", 1)[-1].lstrip("\\")`
unfoldable pub head_name : String → String
unfolding after_last strip_front
head_name token = strip_front 92 (after_last 47 token)

unfoldable pub is_before_head : String → Bool
unfolding head_name has_char starts_with
is_before_head token =
    has_char 61 token && not (starts_with token "-") || elem (head_name token) wrappers

-- The segment from its command word on: `segment[_head_index(segment):]`.
unfoldable pub from_head : List String → List String
from_head [] = []
from_head (t ∷ segment) =
    let rest = from_head segment in if is_before_head t then rest else t ∷ segment

abbrev or_command : String → List String → List String
or_command command [] = command ∷ []
or_command command (line ∷ lines) = line ∷ lines

unfoldable pub logical_lines : String → List String
unfolding split_lines join_continued
logical_lines command = or_command command (split_lines (join_continued command))

-- The invocations, each with the assignments before it; `none` is that the fuel ran out.
abbrev pub Found : Type 0
Found = Option (List (List String))

module _ (lexer : Lexer) (nested : String → Found) where
  abbrev pub look_inside : Option String → Found
  look_inside none = some []
  look_inside (some command) = nested command

  abbrev pub in_segment : List String → List String → Found
  in_segment segment [] = some []
  in_segment segment (word ∷ words) =
      let head = head_name word in
      if head == "git"
      then some (segment ∷ [])
      else if elem head shells
      then look_inside (after_dash_c segment)
      else some []

  unfoldable pub invocations_in_line : List (List String) → Found
  invocations_in_line [] = some []
  invocations_in_line (segment ∷ segments) =
      append_found (in_segment segment (from_head segment)) (invocations_in_line segments)

  abbrev pub in_tokens : Option (List String) → Found
  in_tokens none = some []
  in_tokens (some tokens) = invocations_in_line (split_segments tokens)

  unfoldable pub invocations_in_lines : List String → Found
  invocations_in_lines [] = some []
  invocations_in_lines (line ∷ lines) =
      append_found (in_tokens (lexer.tokenize line)) (invocations_in_lines lines)

-- The fuel bounds how deep `sh -c` is nested.
unfoldable pub invocations_at : Lexer → ℕ → String → Found
invocations_at lexer zero command = none
invocations_at lexer (suc fuel) command =
    invocations_in_lines lexer (invocations_at lexer fuel) (logical_lines command)

abbrev pub or_nothing : Found → List (List String)
or_nothing none = []
or_nothing (some found) = found

unfoldable pub git_invocations : Lexer → String → List (List String)
git_invocations lexer command =
    or_nothing (invocations_at lexer (suc (count_chars command)) command)

unfoldable pub subcommand_among : List String → String
unfolding starts_with
subcommand_among [] = ""
subcommand_among (t ∷ []) = if starts_with t "-" then "" else t
subcommand_among (t ∷ next ∷ rest) =
    let plain = subcommand_among (next ∷ rest) in
    let valued = subcommand_among rest in
    if starts_with t "-" then if elem t git_global_with_value then valued else plain else t

abbrev after_git : List String → List String
after_git [] = []
after_git (git ∷ rest) = rest

unfoldable pub subcommand_of : List String → String
unfolding subcommand_among from_head
subcommand_of tokens = subcommand_among (after_git (from_head tokens))

unfoldable pub subcommands_among : List (List String) → List String
subcommands_among [] = []
subcommands_among (i ∷ is) =
    let rest = subcommands_among is in
    if subcommand_of i == "" then rest else subcommand_of i ∷ rest

unfoldable pub git_subcommands : Lexer → String → List String
unfolding subcommands_among git_invocations
git_subcommands lexer command = subcommands_among (git_invocations lexer command)

abbrev first_or_empty : List String → String
first_or_empty [] = ""
first_or_empty (sub ∷ subs) = sub

unfoldable pub git_subcommand : Lexer → String → String
unfolding git_subcommands
git_subcommand lexer command = first_or_empty (git_subcommands lexer command)
