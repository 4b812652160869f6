-- ===== src/Examples/Trunk.antt =====
-- The branch policy at concrete commands, read by a lexer that splits at white space.
use borromean_rings.Base.{
  String, ◌≡◌, ◌≢◌, refl, false, ◌++◌, none, some, List, [], ◌∷◌, ◌==◌, arith, eq_iff,
}
use mathlib.Core.Bool.{false≢true}
use borromean_rings.Base.Text.{is_space, is_break}
use borromean_rings.StateHome.{is_abs}
use borromean_rings.Words.{
  cut_front, has_char, split_words, starts_with, split_lines, join_continued,
}
use borromean_rings.Trunk.{Shell, Invocation}
use borromean_rings.Trunk.Command.{
  is_leading, lines_found, segments_found, segments_from, after_cd, after_dash_c, from_head,
  located_invocations, locate, git_subcommand,
}
use borromean_rings.Trunk.Command.Depth.{locate-finds}
use borromean_rings.Trunk.Push.{push_violation}
use borromean_rings.Trunk.Push.Spellings.{
  IsName, IsSource, spell, from_ref, forced, push_violation-spell,
}
use borromean_rings.Trunk.Config.{Mapping, lookup, inline_aliases}
use borromean_rings.Trunk.Aliases.{resolve_alias, is_builtin}
use borromean_rings.Trunk.Aliases.Expanded.{IsReal, resolve_alias-IsReal}
use borromean_rings.Trunk.Guard.{invocation_violation, default_facts}
use borromean_rings.Trunk.Guard.Landed.{Runs, builtin, alias, commit, invocation_violation-Moves}
use borromean_rings.Examples.Lexer.{split_all, split_all-CutsOut}

abbrev second : String → String → String
second a b = b

abbrev blanks : Shell
blanks = record {
  tokenize = split_all;
  split = λ text. some (split_words text);
  join = λ words. "";
  join_path = second;
  fnmatch = λ name pattern. name == pattern;
  lower = λ s. s;
  is_letter = λ c. false;
}

abbrev nested_command : String
nested_command = "cd ../other && bash -c git"

locate-finds_example :
    (found : List Invocation) × (locate blanks 30 nested_command none ≡ some found)
locate-finds_example = locate-finds blanks 30 nested_command none split_all-CutsOut (omega arith)

-- The directory is followed, and the inner command read.
located_test :
    located_invocations blanks nested_command (some "/repo")
    ≡ record { argv = "git" ∷ []; cwd = some "../other" } ∷ []
unfolding located_invocations locate lines_found split_lines join_continued is_break segments_found
    segments_from split_words is_space from_head is_leading after_dash_c after_cd is_abs
located_test = refl

abbrev main_only : List String
main_only = "main" ∷ []

main-IsName : IsName "main"
unfolding starts_with cut_front has_char
main-IsName = record {
  nonempty = λ h. cc;
  not_head = λ h. false≢true ((eq_iff "main" "HEAD").1 h);
  not_ref = refl;
  no_dash = refl;
  no_plus = refl;
  no_colon = refl;
}

head-IsSource : IsSource "HEAD"
unfolding starts_with cut_front has_char
head-IsSource = record { nonempty = λ h. cc; no_dash = refl; no_plus = refl; no_colon = refl }

push_violation-spell_example :
    push_violation blanks ("origin" ∷ "+HEAD:refs/heads/main" ∷ []) "feature" main_only ≢ none
unfolding starts_with spell
push_violation-spell_example =
    push_violation-spell blanks "origin" "main" "feature" main_only (forced (from_ref "HEAD"))
      main-IsName head-IsSource refl refl refl

abbrev two_refspecs : List String
two_refspecs = "origin" ∷ "feature" ∷ "v1:main" ∷ []

abbrev chained : Mapping
chained = ("p", "q origin") ∷ ("q", "push") ∷ []

resolve_alias-IsReal_example : IsReal chained (resolve_alias blanks "p" ("main" ∷ []) chained).sub
unfolding resolve_alias lookup is_builtin starts_with split_words is_space
resolve_alias-IsReal_example = resolve_alias-IsReal blanks chained "p" ("main" ∷ []) refl

abbrev a_push : Invocation
a_push = record { argv = "git" ∷ "push" ∷ "origin" ∷ "feature" ∷ []; cwd = none }

abbrev a_command : String
a_command = "git push origin feature && git commit"

-- `git c -m` with the aliases c = "ci -q" and ci = "commit".
abbrev committing : Mapping
committing = ("c", "ci -q") ∷ ("ci", "commit") ∷ []

abbrev a_commit : Invocation
a_commit = record { argv = "git" ∷ "c" ∷ "-m" ∷ []; cwd = none }

aliased :
    Runs blanks
      (inline_aliases blanks a_commit.argv ++ committing)
      8
      []
      (git_subcommand a_commit.argv).0
      (git_subcommand a_commit.argv).1
      "commit"
      ("-q" ∷ "-m" ∷ [])
unfolding git_subcommand is_leading is_builtin lookup inline_aliases starts_with cut_front
    split_words is_space
aliased =
    alias 7 [] "c" ("-m" ∷ []) "ci -q" "ci" ("-q" ∷ []) "commit" ("-q" ∷ "-m" ∷ []) refl refl refl
      refl refl
      (alias 6 ("c" ∷ []) "ci" ("-q" ∷ "-m" ∷ []) "commit" "commit" [] "commit" ("-q" ∷ "-m" ∷ [])
        refl refl refl refl refl (builtin 6 ("ci" ∷ "c" ∷ []) "commit" ("-q" ∷ "-m" ∷ []) refl))

invocation_violation-Moves_example :
    invocation_violation blanks (default_facts "main" committing) main_only 4 a_commit ≢ none
invocation_violation-Moves_example =
    invocation_violation-Moves blanks (default_facts "main" committing) main_only 4 a_commit
      "commit" ("-q" ∷ "-m" ∷ []) refl aliased (commit ("-q" ∷ "-m" ∷ []))
