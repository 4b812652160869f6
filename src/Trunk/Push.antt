-- ===== src/Trunk/Push.antt =====
-- What `git push` writes (trunk_policy.py).
pub mod Exact
pub mod Spellings
use borromean_rings.Base.{
  ℕ, String, Bool, true, false, not, ◌||◌, ◌&&◌, Option, none, some, List, [], ◌∷◌, ◌++◌, ◌==◌,
  elem, any, nat_eq, if◌then◌else◌,
}
use Prim.Native.Char.{code}
use Prim.Native.String
use borromean_rings.Words.{starts_with, remove_prefix, strip_front, has_char, after_char, is_some}
use borromean_rings.Trunk.{Shell}
use borromean_rings.Trunk.Arguments.{
  Flags, no_flags, with_both, long_push_flag, short_push_flags, Argument, argument_of, push_words,
}

pub record PushSpec : Type 0 where
  pub remote : String
  pub destinations : List String
  pub force : Bool
  pub implicit : Bool
  pub everything : Bool
  pub deletes : Bool

-- Where a refspec writes: a branch or glob, the current branch, or no branch. The source says the
-- second by an empty name.
pub data Destination : Type 0 where
  branch : String → Destination
  follows_head no_branch : Destination

-- `spec.split(":", 1)[1] if ":" in spec else spec`
abbrev pub written_side : String → String
written_side spec = if has_char 58 spec then after_char 58 spec else spec

abbrev pub branch_or_head : String → Destination
branch_or_head name = if name == "" then follows_head else branch name

unfoldable pub destination_of : String → Destination
unfolding starts_with remove_prefix
destination_of dest =
    if starts_with dest "refs/heads/"
    then branch_or_head (remove_prefix dest "refs/heads/")
    else if starts_with dest "refs/" || dest == ""
    then no_branch
    else if dest == "HEAD"
    then follows_head
    else branch dest

unfoldable pub destination : String → Destination
unfolding strip_front has_char after_char
destination refspec = destination_of (written_side (strip_front 43 refspec))

pub record Written : Type 0 where
  pub branches : List String
  pub forced : Bool
  pub follows : Bool

abbrev pub write_to : Destination → Bool → Written → Written
write_to (branch b) plus w = record w { branches = b ∷ w.branches; forced = plus || w.forced }
write_to follows_head plus w = record w { forced = plus || w.forced; follows = true }
write_to no_branch plus w = record w { forced = plus || w.forced }

unfoldable pub written_branches : Bool → List String → Written
unfolding destination starts_with strip_front remove_prefix
written_branches delete [] = record { branches = []; forced = false; follows = false }
written_branches true (refspec ∷ refspecs) =
    let w = written_branches true refspecs in
    record w { branches = remove_prefix (strip_front 58 refspec) "refs/heads/" ∷ w.branches }
written_branches false (refspec ∷ refspecs) =
    write_to (destination refspec) (starts_with refspec "+") (written_branches false refspecs)

abbrev first_word : List String → String
first_word [] = ""
first_word (w ∷ ws) = w

abbrev rest_words : List String → List String
rest_words [] = []
rest_words (w ∷ ws) = ws

abbrev is_empty : List String → Bool
is_empty [] = true
is_empty (x ∷ xs) = false

abbrev nothing_written : String → PushSpec
nothing_written remote = record {
  remote = remote;
  destinations = [];
  force = false;
  implicit = false;
  everything = false;
  deletes = false;
}

abbrev pub spec_of : Flags → List String → Bool → Written → PushSpec
spec_of flags positional deletes w = record {
  remote = first_word positional;
  destinations = w.branches;
  force = flags.force || w.forced;
  implicit =
      w.follows
      || is_empty (rest_words positional) && not (flags.delete || (flags.everything || flags.tags));
  everything = flags.everything;
  deletes = deletes;
}

abbrev pub spec_from : Flags × List String → PushSpec
spec_from (flags, positional) =
    let refspecs = rest_words positional in
    let deletes = flags.delete || any (λ r. starts_with r ":") refspecs in
    if flags.dry_run
    then nothing_written (first_word positional)
    else spec_of flags positional deletes (written_branches deletes refspecs)

unfoldable pub push_spec : List String → PushSpec
unfolding push_words argument_of written_branches starts_with
push_spec args = spec_from (push_words false args)

-- Why a command is refused; the messages of the source, by what they report.
pub data Reason : Type 0 where
  pushes_everything : Reason
  deletes_branch forces_branch pushes_branch : String → Reason
  rewrites : String → String → Reason
  lands_on_head : String → String → Reason
  mentions_on_protected : String → Reason
  plants_alias sets_alias : String → String → Reason
  alias_with_config : Reason
  opaque_on_protected opaque_names : String → String → Reason
  shell_alias_names : String → String → Reason

abbrev name_matching : Shell → String → List String → Option String
name_matching shell target [] = none
name_matching shell target (name ∷ names) =
    let rest = name_matching shell target names in
    if shell.fnmatch name target then some name else rest

unfoldable pub first_protected : Shell → List String → List String → Option String
first_protected shell [] protected = none
first_protected shell (target ∷ targets) protected = elim (name_matching shell target protected) [
  | none ↦ first_protected shell targets protected
  | some name ↦ some name
]

abbrev pub push_reason : PushSpec → Option String → Option Reason
push_reason spec none = none
push_reason spec (some hit) =
    if spec.deletes
    then some (deletes_branch hit)
    else if spec.force
    then some (forces_branch hit)
    else some (pushes_branch hit)

-- `[*spec.destinations, *([head] if spec.implicit else [])]`
abbrev pub targets : PushSpec → String → List String
targets spec head = if spec.implicit then spec.destinations ++ head ∷ [] else spec.destinations

abbrev pub spec_violation : Shell → PushSpec → String → List String → Option Reason
spec_violation shell spec head protected =
    if spec.everything
    then some pushes_everything
    else push_reason spec (first_protected shell (targets spec head) protected)

-- The source raises an IndexError for a push of everything where no branch is protected; the guard
-- asks only where some branch is.
unfoldable pub push_violation : Shell → List String → String → List String → Option Reason
unfolding push_spec first_protected
push_violation shell args head protected = spec_violation shell (push_spec args) head protected
