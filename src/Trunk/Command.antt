-- ===== src/Trunk/Command.antt =====
-- Git invocations in a shell command (trunk_policy.py).
pub mod Cuts
pub mod Depth
use borromean_rings.Base.{
  ℕ, zero, suc, String, Bool, true, false, not, ◌||◌, ◌&&◌, Option, none, some, List, [], ◌∷◌, ◌++◌,
  ◌==◌, elem, any, if◌then◌else◌,
}
use borromean_rings.Base.Decimal.{strip}
use borromean_rings.StateHome.{is_abs}
use borromean_rings.Retry.Count.{count_chars}
use borromean_rings.Words.{
  starts_with, has_char, strip_front, after_last, join_continued, split_lines,
}
use borromean_rings.Trunk.{Shell, Invocation}

abbrev pub git_global_with_value : List String
git_global_with_value =
    "-c" ∷ "-C" ∷ "--git-dir" ∷ "--work-tree" ∷ "--namespace" ∷ "--config-env" ∷ "--exec-path" ∷ []

abbrev separators : List String
separators =
    "&&" ∷ "||" ∷ ";" ∷ "|" ∷ "&" ∷ "(" ∷ ")" ∷ "{" ∷ "}" ∷ ">" ∷ "<" ∷ ">>" ∷ "<<" ∷ ">&" ∷ "<&"
    ∷ "|&" ∷ []

abbrev wrappers : List String
wrappers =
    "env" ∷ "command" ∷ "builtin" ∷ "exec" ∷ "nohup" ∷ "time" ∷ "sudo" ∷ "nice" ∷ "then" ∷ "do"
    ∷ "else" ∷ []

abbrev shells : List String
shells = "sh" ∷ "bash" ∷ "zsh" ∷ "dash" ∷ "ksh" ∷ []

-- The tokens between the marks; `segment` is what was read of the current one.
abbrev pub push_segment : List String → List (List String) → List (List String)
push_segment [] segments = segments
push_segment (t ∷ ts) segments = (t ∷ ts) ∷ segments

unfoldable pub segments_from : List String → List String → List String → List (List String)
segments_from marks segment [] = push_segment segment []
segments_from marks segment (t ∷ tokens) =
    let cut = push_segment segment (segments_from marks [] tokens) in
    let more = segments_from marks (segment ++ t ∷ []) tokens in if elem t marks then cut else more

abbrev pub segments : List String → List (List String)
segments tokens = segments_from separators [] tokens

unfoldable pub basename : String → String
unfolding after_last
basename token = after_last 47 token

-- Whether a word precedes the command word: `VAR=value`, or a wrapper.
unfoldable pub is_leading : String → Bool
unfolding basename has_char starts_with
is_leading token =
    has_char 61 token && not (starts_with token "-") || elem (basename token) wrappers

-- The segment from its command word on: `segment[_head_index(segment):]`.
unfoldable pub from_head : List String → List String
from_head [] = []
from_head (t ∷ segment) = let rest = from_head segment in if is_leading t then rest else t ∷ segment

unfoldable pub heredoc_tags : List String → List String
unfolding strip_front
heredoc_tags [] = []
heredoc_tags (word ∷ []) = []
heredoc_tags (word ∷ tag ∷ tokens) =
    let tags = heredoc_tags (tag ∷ tokens) in
    if word == "<<" then strip_front 45 tag ∷ tags else tags

-- `[a for a in args if not a.startswith("-")]`
unfoldable pub positional_of : List String → List String
unfolding starts_with
positional_of [] = []
positional_of (a ∷ args) =
    let rest = positional_of args in if starts_with a "-" then rest else a ∷ rest

abbrev enter : Shell → Option String → String → Option String
enter shell none target = some target
enter shell (some cwd) target =
    if is_abs target || starts_with target "~"
    then some target
    else if cwd == "?"
    then some "?"
    else some (shell.join_path cwd target)

abbrev cd_to : Shell → Option String → List String → List String → Option String
cd_to shell cwd words [] = if elem "-" words then some "?" else enter shell cwd "~"
cd_to shell cwd words (target ∷ args) = enter shell cwd target

-- The directory after `cd` or `pushd` with the words that follow it.
unfoldable pub after_cd : Shell → Option String → List String → Option String
unfolding positional_of
after_cd shell cwd words = cd_to shell cwd words (positional_of words)

-- The word after the first `-c` of a segment.
unfoldable pub after_dash_c : List String → Option String
after_dash_c [] = none
after_dash_c (t ∷ []) = none
after_dash_c (t ∷ next ∷ segment) =
    let rest = after_dash_c (next ∷ segment) in if t == "-c" then some next else rest

-- What a segment adds, and the directory after it. `nested` looks inside `sh -c`; `none` is that the
-- fuel ran out there.
abbrev pub Found : Type 0
Found = Option (List Invocation)

abbrev pub append_found {ℓ} : {A : Type ℓ} → Option (List A) → Option (List A) → Option (List A)
append_found none later = none
append_found (some found) none = none
append_found (some found) (some later) = some (found ++ later)

module _ (shell : Shell) (nested : String → Option String → Found) where
  abbrev pub look_inside : Option String → Option String → Found
  look_inside none cwd = some []
  look_inside (some command) cwd = nested command cwd

  abbrev pub segment_at : List String → Option String → List String → Found × Option String
  segment_at segment cwd [] = (some [], cwd)
  segment_at segment cwd (word ∷ words) =
      let head = basename word in
      if head == "git"
      then (some (record { argv = segment; cwd = cwd } ∷ []), cwd)
      else if head == "cd" || head == "pushd"
      then (some [], after_cd shell cwd words)
      else if head == "popd"
      then (some [], some "?")
      else if elem head shells
      then (look_inside (after_dash_c segment) cwd, cwd)
      else (some [], cwd)

  unfoldable pub segments_found : List (List String) → Option String → Found × Option String
  segments_found [] cwd = (some [], cwd)
  segments_found (segment ∷ rest) cwd =
      let (found, cwd') = segment_at segment cwd (from_head segment) in
      let (later, last) = segments_found rest cwd' in (append_found found later, last)

  -- The loop over the lines; `pending` are the terminators of the open heredocs.
  unfoldable pub lines_found : List String → List String → Option String → Found
  lines_found [] pending cwd = some []
  lines_found (line ∷ lines) (tag ∷ pending) cwd =
      lines_found lines (if strip line == tag then pending else tag ∷ pending) cwd
  lines_found (line ∷ lines) [] cwd = elim (shell.tokenize line) [
    | none ↦ lines_found lines [] cwd
    | some tokens ↦
        let (found, cwd') = segments_found (segments tokens) cwd in
        append_found found (lines_found lines (heredoc_tags tokens) cwd')
  ]

-- The fuel bounds how deep `sh -c` is nested.
unfoldable pub locate : Shell → ℕ → String → Option String → Found
locate shell zero command cwd = none
locate shell (suc fuel) command cwd =
    lines_found shell (locate shell fuel) (split_lines (join_continued command)) [] cwd

abbrev or_nothing : Found → List Invocation
or_nothing none = []
or_nothing (some found) = found

unfoldable pub located_invocations : Shell → String → Option String → List Invocation
located_invocations shell command cwd =
    or_nothing (locate shell (suc (count_chars command)) command cwd)

-- The subcommand and its arguments, past the global options that `git` is followed by.
unfoldable pub past_globals : List String → String × List String
past_globals [] = ("", [])
past_globals (t ∷ []) = if starts_with t "-" then ("", []) else (t, [])
past_globals (t ∷ next ∷ rest) =
    let plain = past_globals (next ∷ rest) in
    let valued = past_globals rest in
    if starts_with t "-"
    then if elem t git_global_with_value then valued else plain
    else (t, next ∷ rest)

abbrev pub after_git : List String → List String
after_git [] = []
after_git (git ∷ rest) = rest

unfoldable pub git_subcommand : List String → String × List String
unfolding past_globals from_head
git_subcommand argv = past_globals (after_git (from_head argv))

unfoldable pub globals_from : List String → List String
globals_from [] = []
globals_from (t ∷ []) = if starts_with t "-" then t ∷ [] else []
globals_from (t ∷ next ∷ rest) =
    let plain = t ∷ globals_from (next ∷ rest) in
    let valued = t ∷ next ∷ globals_from rest in
    if starts_with t "-" then if elem t git_global_with_value then valued else plain else []

unfoldable pub git_globals : List String → List String
unfolding globals_from from_head
git_globals argv = globals_from (after_git (from_head argv))

abbrev is_dir_global : String → Bool
is_dir_global g = starts_with g "-C" || (starts_with g "--git-dir" || starts_with g "--work-tree")

unfoldable pub moves_repo : List String → Bool
unfolding git_globals
moves_repo argv = any is_dir_global (git_globals argv)
