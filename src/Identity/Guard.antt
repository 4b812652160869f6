-- ===== src/Identity/Guard.antt =====
-- Whether a command would commit under another identity than the declared one (git_identity.py).
pub mod Agreeing
pub mod Stated
pub mod Readable
use borromean_rings.Base.{
  String, Bool, not, ◌&&◌, Option, none, some, List, [], ◌∷◌, ◌==◌, any, elem, keep, if◌then◌else◌,
}
use borromean_rings.Words.{contains, split_lines}
use borromean_rings.Identity.{Identity, is_set, is_enforced, differs}
use borromean_rings.Identity.Command.{Lexer, git_invocations, subcommand_of}
use borromean_rings.Identity.Overrides.{
  Kind, opaque_key, author_value, email_value, name_value, Override, email_of, name_of,
  override_markers, overrides_in,
}

-- Why a command is refused: the key that cannot be read, or the value stated and the one required.
pub data Conflict : Type 0 where
  unreadable : String → Conflict
  author_email : String → String → Conflict
  author_name : String → String → Conflict
  inline_email : String → String → Conflict
  inline_name : String → String → Conflict
  unparseable : Conflict

unfoldable pub author_violation : String → Identity → Option Conflict
unfolding email_of name_of
author_violation value declared =
    let email = email_of value in
    let name = name_of value in
    if is_set declared.email && is_set email && not (email == declared.email)
    then some (author_email email declared.email)
    else if is_set declared.name && is_set name && not (name == declared.name)
    then some (author_name name declared.name)
    else none

unfoldable pub override_violation : Kind → String → Identity → Option Conflict
unfolding author_violation
override_violation opaque_key value declared = some (unreadable value)
override_violation author_value value declared =
    if is_set value then author_violation value declared else none
override_violation email_value value declared =
    if is_set value && differs declared.email value
    then some (inline_email value declared.email)
    else none
override_violation name_value value declared =
    if is_set value && differs declared.name value
    then some (inline_name value declared.name)
    else none

unfoldable pub looks_like_git_commit : Lexer → String → Bool
looks_like_git_commit lexer command = lexer.starts_git command && lexer.names_commit command

unfoldable pub git_command_lines : Lexer → String → List String
unfolding split_lines
git_command_lines lexer command = keep (λ line. lexer.starts_git line) (split_lines command)

abbrev pub has_marker : String → Bool
has_marker text = any (λ marker. contains text marker) override_markers

unfoldable pub unparseable_violation : Lexer → String → Option Conflict
unfolding looks_like_git_commit git_command_lines contains
unparseable_violation lexer command =
    if not (looks_like_git_commit lexer command)
    then none
    else if any has_marker (git_command_lines lexer command)
    then some unparseable
    else none

abbrev pub or_conflict : Option Conflict → Option Conflict → Option Conflict
or_conflict none later = later
or_conflict (some conflict) later = some conflict

-- The loop over the overrides of one invocation, then over the invocations.
unfoldable pub among_overrides : Identity → List Override → Option Conflict
unfolding override_violation
among_overrides declared [] = none
among_overrides declared ((kind, value) ∷ overrides) =
    or_conflict (override_violation kind value declared) (among_overrides declared overrides)

abbrev pub writes_commit : List String → Bool
writes_commit invocation = elem (subcommand_of invocation) ("commit" ∷ "push" ∷ [])

unfoldable pub among_invocations : Identity → List (List String) → Option Conflict
unfolding among_overrides overrides_in
among_invocations declared [] = none
among_invocations declared (invocation ∷ invocations) =
    let rest = among_invocations declared invocations in
    if writes_commit invocation
    then or_conflict (among_overrides declared (overrides_in invocation)) rest
    else rest

abbrev pub judge_tokens : Lexer → String → Identity → Option (List String) → Option Conflict
judge_tokens lexer command declared none = unparseable_violation lexer command
judge_tokens lexer command declared (some tokens) =
    among_invocations declared (git_invocations lexer command)

unfoldable pub command_override_violation : Lexer → String → Identity → Option Conflict
unfolding is_enforced contains unparseable_violation among_invocations git_invocations
command_override_violation lexer command declared =
    if not (is_enforced declared)
    then none
    else if not (has_marker command)
    then none
    else judge_tokens lexer command declared (lexer.tokenize command)
