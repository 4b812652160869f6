-- ===== src/Trunk/Guard.antt =====
-- The decision of the guard on a command, and of the gate on a branch (trunk_policy.py).
pub mod Refusals
pub mod Landed
use Prim.Native.String
use borromean_rings.Base.{
  ℕ, zero, suc, String, Bool, true, false, not, ◌||◌, ◌&&◌, Option, none, some, List, [], ◌∷◌, ◌++◌,
  ◌==◌, elem, any, nat_eq, if◌then◌else◌,
}
use borromean_rings.Words.{starts_with, contains, split_words}
use borromean_rings.Trunk.{Shell, Invocation, RepoFacts}
use borromean_rings.Trunk.Command.{located_invocations, git_subcommand, moves_repo, positional_of}
use borromean_rings.Trunk.Push.{
  Reason, lands_on_head, mentions_on_protected, opaque_on_protected, opaque_names,
  shell_alias_names, push_violation,
}
use borromean_rings.Trunk.Rewrites.{branch_violation, switch_violation, update_ref_violation}
use borromean_rings.Trunk.Config.{Mapping, lookup, has_verb, inline_aliases}
use borromean_rings.Trunk.Aliases.{Resolved, resolve_alias}
use borromean_rings.Trunk.Planted.{
  alias_write_violation, shell_alias_command, args_name_protected, alias_floor,
}

abbrev pub lands_on_head_subs : List String
lands_on_head_subs = "commit" ∷ "merge" ∷ "rebase" ∷ "cherry-pick" ∷ "revert" ∷ "am" ∷ []

abbrev pub reset_moves_head : List String
reset_moves_head = "--hard" ∷ "--soft" ∷ "--mixed" ∷ "--merge" ∷ "--keep" ∷ []

abbrev pub rest_words : List String → List String
rest_words [] = []
rest_words (w ∷ ws) = ws

-- Whether a subcommand would create or move commits on the current branch.
unfoldable pub moves_head : String → List String → String → Bool
unfolding positional_of
moves_head sub args head =
    if elem sub lands_on_head_subs
    then true
    else if sub == "reset"
    then any (λ a. elem a reset_moves_head) args
    else if sub == "pull"
    then any (λ ref. not (ref == head)) (rest_words (positional_of args))
    else false

unfoldable pub floor_violation : String → String → Option Reason
unfolding contains
floor_violation command head =
    if contains command "git commit" || contains command "git push"
    then some (mentions_on_protected head)
    else none

unfoldable pub ref_violation : Shell → String → List String → String → List String → Option Reason
ref_violation shell sub args head protected =
    if sub == "push"
    then push_violation shell args head protected
    else if sub == "branch"
    then branch_violation args protected
    else if sub == "checkout" || sub == "switch"
    then switch_violation sub args protected
    else if sub == "update-ref"
    then update_ref_violation args protected
    else none

abbrev first_named : List String → List String → Option String
first_named [] texts = none
first_named (p ∷ protected) texts =
    let rest = first_named protected texts in if elem p texts then some p else rest

abbrev named_reason : String → Option String → Option Reason
named_reason name none = none
named_reason name (some branch) = some (opaque_names name branch)

unfoldable pub opaque_alias_violation : String → String → String → List String → Option Reason
unfolding split_words
opaque_alias_violation name opaque head protected =
    if elem head protected
    then some (opaque_on_protected name head)
    else named_reason name (first_named protected (split_words opaque))

abbrev pub first_reason : (Invocation → Option Reason) → List Invocation → Option Reason
first_reason judge [] = none
first_reason judge (invocation ∷ invocations) = elim (judge invocation) [
  | none ↦ first_reason judge invocations
  | some r ↦ some r
]

abbrev or_reason : Option Reason → Option Reason → Option Reason
or_reason none later = later
or_reason (some r) later = some r

abbrev alias_names_reason : String → Option String → Option Reason
alias_names_reason name none = none
alias_names_reason name (some branch) = some (shell_alias_names name branch)

-- `judge` is the judgement on an inner invocation, one level deeper.
unfoldable pub shell_alias_violation :
    Shell
    → (Invocation → Option Reason)
    → String
    → String
    → List String
    → Invocation
    → List String
    → Option Reason
shell_alias_violation shell judge name definition args invocation protected =
    or_reason
      (first_reason judge
        (located_invocations shell (shell_alias_command shell definition args) invocation.cwd))
      (if has_verb shell definition
        then alias_names_reason name (args_name_protected shell protected args)
        else none)

abbrev or_empty : Option String → String
or_empty none = ""
or_empty (some s) = s

module _ (shell : Shell) (facts : RepoFacts) (protected : List String) where
  -- The judgement on an invocation whose alias could not be seen through. `deeper` judges inside a
  -- shell alias; it is `none` at the greatest depth.
  abbrev pub opaque_reason :
      Option (Invocation → Option Reason)
      → Invocation
      → String
      → Mapping
      → Resolved
      → String
      → Option Reason
  opaque_reason none invocation sub aliases real text =
      opaque_alias_violation sub text facts.head protected
  opaque_reason (some deeper) invocation sub aliases real text =
      let definition = or_empty (lookup real.sub aliases) in
      or_reason
        (if starts_with definition "!"
          then shell_alias_violation shell deeper real.sub definition real.args invocation protected
          else none)
        (opaque_alias_violation sub text facts.head protected)

  abbrev pub plain_reason : Resolved → Option Reason
  plain_reason real =
      if elem facts.head protected && moves_head real.sub real.args facts.head
      then some (lands_on_head facts.head real.sub)
      else ref_violation shell real.sub real.args facts.head protected

  abbrev pub resolved_reason :
      Option (Invocation → Option Reason) → Invocation → String → Mapping → Resolved → Option Reason
  resolved_reason deeper invocation sub aliases real = elim real.opaque [
    | none ↦ plain_reason real
    | some text ↦ opaque_reason deeper invocation sub aliases real text
  ]

  abbrev pub unplanted_reason :
      Option (Invocation → Option Reason)
      → Invocation
      → String × List String
      → Option Reason
      → Option Reason
  unplanted_reason deeper invocation command (some planted) = some planted
  unplanted_reason deeper invocation (sub, args) none =
      let aliases = inline_aliases shell invocation.argv ++ facts.aliases in
      resolved_reason deeper invocation sub aliases (resolve_alias shell sub args aliases)

  abbrev pub judge_with : Option (Invocation → Option Reason) → Invocation → Option Reason
  judge_with deeper invocation =
      let command = git_subcommand invocation.argv in
      unplanted_reason deeper invocation command
        (alias_write_violation shell invocation.argv command.0 command.1)

  -- The number is how many more shell aliases are followed.
  unfoldable pub invocation_violation : ℕ → Invocation → Option Reason
  invocation_violation zero invocation = judge_with none invocation
  invocation_violation (suc left) invocation =
      judge_with (some (invocation_violation left)) invocation

abbrev pub shell_alias_depth : ℕ
shell_alias_depth = 4

-- `facts_at` is the resolver of the facts of another repository.
unfoldable pub facts_for : Option (Invocation → RepoFacts) → RepoFacts → Invocation → RepoFacts
facts_for none default invocation = default
facts_for (some facts_at) default invocation = elim invocation.cwd [
  | none ↦ if moves_repo invocation.argv then facts_at invocation else default
  | some cwd ↦ facts_at invocation
]

abbrev pub judge_in : Shell → List String → RepoFacts → Invocation → Option Reason
judge_in shell protected facts invocation =
    if facts.governed
    then invocation_violation shell facts protected shell_alias_depth invocation
    else none

abbrev pub default_facts : String → Mapping → RepoFacts
default_facts head aliases = record { head = head; aliases = aliases; governed = true }

abbrev pub floors : Shell → String → String → List String → Option Reason
floors shell command head protected =
    or_reason (alias_floor shell command)
      (if elem head protected then floor_violation command head else none)

unfoldable pub branch_policy_violation :
    Shell
    → String
    → String
    → List String
    → Mapping
    → Option (Invocation → RepoFacts)
    → Option Reason
branch_policy_violation shell command head [] aliases facts_at = none
branch_policy_violation shell command head (p ∷ protected) aliases facts_at =
    or_reason
      (first_reason
        (λ i. judge_in shell (p ∷ protected) (facts_for facts_at (default_facts head aliases) i) i)
        (located_invocations shell command none))
      (floors shell command head (p ∷ protected))

-- `ahead` is `none` where no remote ref exists; the answer is whether the gate fails.
unfoldable pub direct_commit_violation : String → List String → Option ℕ → Bool
direct_commit_violation branch protected none = false
direct_commit_violation branch protected (some ahead) =
    elem branch protected && not (nat_eq ahead 0)
