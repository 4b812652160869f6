-- ===== src/Trunk/Guard/Landed.antt =====
-- That no alias hides a command that moves a protected branch (trunk_policy.py, trunk_aliases.py).
use borromean_rings.Base.{
  ℕ, zero, suc, String, ◌≡◌, ◌≢◌, refl, ◌∙◌, subst, true, false, not, Option, none, some, List, [],
  ◌∷◌, ◌++◌, ◌==◌, any, elem,
}
use borromean_rings.Words.{starts_with}
use borromean_rings.Trunk.{Shell, Invocation, RepoFacts}
use borromean_rings.Trunk.Command.{git_subcommand, positional_of}
use borromean_rings.Trunk.Push.{Reason, lands_on_head}
use borromean_rings.Trunk.Config.{Mapping, lookup, inline_aliases}
use borromean_rings.Trunk.Aliases.{
  Resolved, is_builtin, plain, resolve_step, resolve_from, resolve_alias,
}
use borromean_rings.Trunk.Planted.{alias_write_violation}
use borromean_rings.Trunk.Guard.{
  moves_head, plain_reason, resolved_reason, unplanted_reason, invocation_violation,
}
use borromean_rings.Trunk.Guard.Refusals.{judged_at}

-- What git runs for a subcommand and its arguments: a builtin as it stands; for an alias of words,
-- none of those expanded on the way, the words in front of the arguments. The number bounds how
-- many aliases are still followed.
pub data Runs (shell : Shell) (aliases : Mapping)
    : ℕ → List String → String → List String → String → List String → Type 0 where
  builtin :
      (left : ℕ) (seen : List String) (sub : String) (args : List String)
      → is_builtin sub ≡ true
      → Runs shell aliases left seen sub args sub args
  alias :
      (left : ℕ) (seen : List String) (sub : String) (args : List String) (text word : String)
      (words : List String) (target : String) (target_args : List String)
      → is_builtin sub ≡ false
      → elem sub seen ≡ false
      → lookup sub aliases ≡ some text
      → starts_with text "!" ≡ false
      → shell.split text ≡ some (word ∷ words)
      → Runs shell aliases left (sub ∷ seen) word (words ++ args) target target_args
      → Runs shell aliases (suc left) seen sub args target target_args

-- What creates or moves commits on the current branch: one of six subcommands, a reset that names
-- its mode, a pull that names another reference than the branch.
pub data Moves (head : String) : String → List String → Type 0 where
  commit : (args : List String) → Moves head "commit" args
  merge : (args : List String) → Moves head "merge" args
  rebase : (args : List String) → Moves head "rebase" args
  cherry_pick : (args : List String) → Moves head "cherry-pick" args
  revert : (args : List String) → Moves head "revert" args
  am : (args : List String) → Moves head "am" args
  reset :
      (args : List String)
      → any (λ a. elem a ("--hard" ∷ "--soft" ∷ "--mixed" ∷ "--merge" ∷ "--keep" ∷ [])) args ≡ true
      → Moves head "reset" args
  pull :
      (args : List String) (remote : String) (refs : List String)
      → positional_of args ≡ remote ∷ refs
      → any (λ ref. not (ref == head)) refs ≡ true
      → Moves head "pull" args

Moves-moves_head :
    (head sub : String) (args : List String) → Moves head sub args → moves_head sub args head ≡ true
unfolding moves_head
Moves-moves_head head sub args (commit _) = refl
Moves-moves_head head sub args (merge _) = refl
Moves-moves_head head sub args (rebase _) = refl
Moves-moves_head head sub args (cherry_pick _) = refl
Moves-moves_head head sub args (revert _) = refl
Moves-moves_head head sub args (am _) = refl
Moves-moves_head head sub args (reset _ h) = h
Moves-moves_head head sub args (pull _ remote refs e h) = rw e h

module _ (shell : Shell) (aliases : Mapping) where
  plain_step :
      (deeper : Option (String → List String → Resolved)) (seen : List String) (sub : String)
      (args : List String) (o : Option String)
      → is_builtin sub ≡ true
      → resolve_step shell deeper seen sub args o ≡ plain sub args
  plain_step deeper seen sub args none h = refl
  plain_step deeper seen sub args (some text) h = rw h refl

  alias_step :
      (deeper : String → List String → Resolved) (seen : List String) (sub : String)
      (args : List String) (text word : String) (words : List String)
      → is_builtin sub ≡ false
      → elem sub seen ≡ false
      → starts_with text "!" ≡ false
      → shell.split text ≡ some (word ∷ words)
      → resolve_step shell (some deeper) seen sub args (some text) ≡ deeper word (words ++ args)
  alias_step deeper seen sub args text word words b c d e = rw (b, c, d, e) refl

  Runs-resolve_from :
      (left : ℕ) (seen : List String) (sub : String) (args : List String) (target : String)
      (target_args : List String)
      → Runs shell aliases left seen sub args target target_args
      → resolve_from shell aliases left seen sub args ≡ plain target target_args
  unfolding resolve_from
  Runs-resolve_from zero seen sub args target more (builtin _ _ _ _ h) =
      plain_step none seen sub args (lookup sub aliases) h
  Runs-resolve_from (suc left) seen sub args target more (builtin _ _ _ _ h) =
      plain_step (some (resolve_from shell aliases left (sub ∷ seen))) seen sub args
        (lookup sub aliases) h
  Runs-resolve_from (suc left) seen sub args target more
        (alias _ _ _ _ text word words _ _ b c l d e r) =
      rw l (
        alias_step (resolve_from shell aliases left (sub ∷ seen)) seen sub args text word words b c
          d e)
      ∙ Runs-resolve_from left (sub ∷ seen) word (words ++ args) target more r

module _ (shell : Shell) (facts : RepoFacts) (protected : List String) where
  moved_some :
      (target : String) (args : List String)
      → elem facts.head protected ≡ true
      → moves_head target args facts.head ≡ true
      → plain_reason shell facts protected (plain target args)
        ≡ some (lands_on_head facts.head target)
  moved_some target args e m = rw (e, m) refl

  unplanted_refused :
      (deeper : Option (Invocation → Option Reason)) (i : Invocation) (sub : String)
      (args : List String) (target : String) (target_args : List String) (planted : Option Reason)
      → elem facts.head protected ≡ true
      → moves_head target target_args facts.head ≡ true
      → resolve_alias shell sub args (inline_aliases shell i.argv ++ facts.aliases)
        ≡ plain target target_args
      → unplanted_reason shell facts protected deeper i (sub, args) planted ≢ none
  unplanted_refused deeper i sub args target more (some r) e m q h = cc
  unplanted_refused deeper i sub args target more none e m q h =
      let aliases = inline_aliases shell i.argv ++ facts.aliases in
      cc (
        moved_some target more e m,
        subst (λ r. resolved_reason shell facts protected deeper i sub aliases r ≡ none) q h,
      )

  -- On a protected branch an invocation is refused that, as it stands or through a chain of at most
  -- eight aliases of words, on its command line or in the configuration, runs a commit, a merge, a
  -- rebase, a cherry-pick, a revert, an am, a reset that names its mode, or a pull that names
  -- another reference than the branch.
  pub invocation_violation-Moves :
      (n : ℕ) (i : Invocation) (target : String) (target_args : List String)
      → elem facts.head protected ≡ true
      → Runs shell
          (inline_aliases shell i.argv ++ facts.aliases)
          8
          []
          (git_subcommand i.argv).0
          (git_subcommand i.argv).1
          target
          target_args
      → Moves facts.head target target_args
      → invocation_violation shell facts protected n i ≢ none
  unfolding resolve_alias
  invocation_violation-Moves n i target target_args e runs moves h =
      let (sub, args) = git_subcommand i.argv in
      let aliases = inline_aliases shell i.argv ++ facts.aliases in
      let (deeper, q) = judged_at shell facts protected n i h in
      unplanted_refused deeper i (git_subcommand i.argv).0 (git_subcommand i.argv).1 target
        target_args
        (alias_write_violation shell i.argv (git_subcommand i.argv).0 (git_subcommand i.argv).1) e
        (Moves-moves_head facts.head target target_args moves)
        (Runs-resolve_from shell aliases 8 [] (git_subcommand i.argv).0 (git_subcommand i.argv).1
          target target_args runs)
        q
