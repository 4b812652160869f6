-- ===== src/Examples/Identity.antt =====
-- Tests and witnesses: the declared git identity.
use borromean_rings.Base.{
  String, ◌≡◌, ◌≢◌, refl, ◌↔◌, eq_iff, true, List, none, some, [], ◌∷◌, ◌==◌, All, if◌then◌else◌,
}
use mathlib.Core.Bool.{false≢true}
use borromean_rings.Base.Text.{is_break, is_space}
use borromean_rings.Words.{
  contains, split_words, split_lines, join_continued, starts_with, cut_front,
}
use borromean_rings.Trunk.Command.{segments_from}
use borromean_rings.Examples.Lexer.{split_all}
use borromean_rings.Identity.{
  Identity, required_identity, is_enforced, configured_violation, offenders, author_violations,
}
use borromean_rings.Identity.Declared.{Matches, declared_identities-Matches}
use borromean_rings.Identity.Command.{
  Lexer, logical_lines, is_before_head, from_head, invocations_in_line, invocations_in_lines,
  invocations_at, git_invocations, subcommand_among, subcommand_of,
}
use borromean_rings.Identity.Guard.{has_marker, writes_commit, command_override_violation}
use borromean_rings.Identity.Guard.Stated.{author_variable, command_override_violation-spelled}

abbrev words : Lexer
words = record {
  tokenize = split_all;
  starts_git = λ s. starts_with s "git ";
  names_commit = λ s. contains s "commit";
}

abbrev ada : Identity
ada = record { name = "Ada"; email = "a@b.c" }

abbrev eve : Identity
eve = record { name = "Ada"; email = "e@b.c" }

declared_identities-Matches_example :
    ((configured_violation eve ada ≡ none) ↔ Matches ada eve)
    × ((author_violations (ada ∷ eve ∷ []) ada ≡ []) ↔ All (Matches ada) (ada ∷ eve ∷ []))
declared_identities-Matches_example = declared_identities-Matches eve ada (ada ∷ eve ∷ [])

-- The display name of another author is no offence under `email`.
required_test :
    author_violations
      (eve ∷ record { name = "Ada L"; email = "a@b.c" } ∷ [])
      (required_identity "Ada" "a@b.c" "email")
    ≡ "Ada <e@b.c>" ∷ []
unfolding author_violations offenders required_identity is_enforced
required_test = refl

abbrev variable : String
variable = "cd x && GIT_AUTHOR_EMAIL=e@b.c git commit -m y"

variable-found :
    git_invocations words variable
    ≡ ("GIT_AUTHOR_EMAIL=e@b.c" ∷ "git" ∷ "commit" ∷ "-m" ∷ "y" ∷ []) ∷ []
unfolding git_invocations invocations_at invocations_in_lines invocations_in_line logical_lines
    split_lines join_continued is_break segments_from split_words is_space from_head is_before_head
variable-found = refl

variable-marked : has_marker variable ≡ true
unfolding contains starts_with cut_front
variable-marked = refl

variable-writes :
    writes_commit ("GIT_AUTHOR_EMAIL=e@b.c" ∷ "git" ∷ "commit" ∷ "-m" ∷ "y" ∷ []) ≡ true
unfolding subcommand_of subcommand_among from_head is_before_head
variable-writes = refl

abbrev its_lines : List (List String)
its_lines = split_words variable ∷ []

command_override_violation-spelled_example : command_override_violation words variable ada ≢ none
command_override_violation-spelled_example =
    command_override_violation-spelled words variable ada (split_words variable) author_variable
      "e@b.c" [] ("git" ∷ "commit" ∷ "-m" ∷ "y" ∷ []) [] [] refl variable-marked variable-found
      variable-writes (λ h. false≢true ((eq_iff "a@b.c" "").1 h))
      (λ h. false≢true ((eq_iff "e@b.c" "").1 h)) (λ h. false≢true ((eq_iff "e@b.c" "a@b.c").1 h))

-- A message of two lines: a lexer that wants each quote closed reads the whole, but neither line.
abbrev two_lines : String
two_lines = "git commit --author=E -m 'a\nb'"

abbrev quoting : Lexer
quoting = record {
  tokenize = λ s.
      if s == two_lines then some ("git" ∷ "commit" ∷ "--author=E" ∷ "-m" ∷ "a\nb" ∷ []) else none;
  starts_git = λ s. starts_with s "git ";
  names_commit = λ s. contains s "commit";
}
