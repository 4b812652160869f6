-- ===== src/Trunk/Aliases.antt =====
-- Git aliases: what a subcommand is after they are expanded (trunk_aliases.py).
pub mod Expanded
use Prim.Native.Char.{code}
use Prim.Native.String
use Prim.Native.String.{◌++◌ as text_append}
use borromean_rings.Base.{
  ℕ, zero, suc, String, Bool, true, false, not, ◌||◌, ◌&&◌, Option, none, some, List, [], ◌∷◌, ◌++◌,
  ◌==◌, elem, any, leb, map, nat_eq, if◌then◌else◌,
}
use borromean_rings.Base.Names.{sorted_names}
use borromean_rings.Base.Decimal.{strip}
use borromean_rings.Words.{
  starts_with, remove_prefix, cut_front, has_char, before_char, after_char, contains, strip_front,
  split_char, is_some,
}
use borromean_rings.Trunk.{Shell}
use borromean_rings.Trunk.Command.{positional_of}
use borromean_rings.Trunk.Push.{Reason, plants_alias, sets_alias, alias_with_config}
use borromean_rings.Trunk.Config.{Mapping, lookup}

-- GIT_BUILTINS: no alias shadows these.
abbrev pub git_builtins : List String
git_builtins =
    "add" ∷ "am" ∷ "apply" ∷ "archive" ∷ "bisect" ∷ "blame" ∷ "branch" ∷ "bundle" ∷ "cat-file"
    ∷ "check-attr" ∷ "check-ignore" ∷ "check-mailmap" ∷ "check-ref-format" ∷ "checkout"
    ∷ "checkout-index" ∷ "cherry" ∷ "cherry-pick" ∷ "citool" ∷ "clean" ∷ "clone" ∷ "column"
    ∷ "commit" ∷ "commit-tree" ∷ "config" ∷ "count-objects" ∷ "credential" ∷ "daemon" ∷ "describe"
    ∷ "diff" ∷ "diff-files" ∷ "diff-index" ∷ "diff-tree" ∷ "difftool" ∷ "fast-export"
    ∷ "fast-import" ∷ "fetch" ∷ "filter-branch" ∷ "fmt-merge-msg" ∷ "for-each-ref" ∷ "format-patch"
    ∷ "fsck" ∷ "gc" ∷ "grep" ∷ "gui" ∷ "hash-object" ∷ "help" ∷ "hook" ∷ "index-pack" ∷ "init"
    ∷ "instaweb" ∷ "interpret-trailers" ∷ "log" ∷ "ls-files" ∷ "ls-remote" ∷ "ls-tree"
    ∷ "maintenance" ∷ "merge" ∷ "merge-base" ∷ "merge-file" ∷ "merge-tree" ∷ "mergetool" ∷ "mktag"
    ∷ "mktree" ∷ "mv" ∷ "name-rev" ∷ "notes" ∷ "pack-objects" ∷ "pack-refs" ∷ "patch-id" ∷ "prune"
    ∷ "prune-packed" ∷ "pull" ∷ "push" ∷ "range-diff" ∷ "read-tree" ∷ "rebase" ∷ "receive-pack"
    ∷ "reflog" ∷ "remote" ∷ "repack" ∷ "replace" ∷ "request-pull" ∷ "rerere" ∷ "reset" ∷ "restore"
    ∷ "revert" ∷ "rm" ∷ "rev-list" ∷ "rev-parse" ∷ "send-email" ∷ "shortlog" ∷ "show"
    ∷ "show-branch" ∷ "show-index" ∷ "show-ref" ∷ "sparse-checkout" ∷ "stage" ∷ "stash" ∷ "status"
    ∷ "stripspace" ∷ "submodule" ∷ "switch" ∷ "symbolic-ref" ∷ "tag" ∷ "unpack-objects"
    ∷ "update-index" ∷ "update-ref" ∷ "update-server-info" ∷ "upload-pack" ∷ "var" ∷ "verify-commit"
    ∷ "verify-pack" ∷ "verify-tag" ∷ "whatchanged" ∷ "worktree" ∷ "write-tree" ∷ []

-- An invocation after its aliases are expanded; `opaque` is the alias that cannot be seen through.
pub record Resolved : Type 0 where
  pub sub : String
  pub args : List String
  pub opaque : Option String

abbrev pub max_alias_depth : ℕ
max_alias_depth = 8

abbrev alias_text : String → String → String → String
alias_text name expansion note = text_append name (text_append " = " (text_append expansion note))

abbrev pub stop : String → List String → String → Resolved
stop sub args text = record { sub = sub; args = args; opaque = some text }

-- The words that replace an alias, or the text that says why they cannot be read.
pub data Expansion : Type 0 where
  unreadable : String → Expansion
  expands : String → List String → Expansion

abbrev expansion_of : String → String → Option (List String) → Expansion
expansion_of name expansion none = unreadable (alias_text name expansion " (unparseable)")
expansion_of name expansion (some []) = unreadable (alias_text name "(empty)" "")
expansion_of name expansion (some (w ∷ ws)) = expands w ws

unfoldable pub is_builtin : String → Bool
is_builtin sub = elem sub git_builtins

abbrev pub plain : String → List String → Resolved
plain sub args = record { sub = sub; args = args; opaque = none }

-- The body of the loop; `deeper` goes on with the words of an alias, and is `none` where no more
-- aliases may be expanded.
abbrev pub with_words :
    (String → List String → Resolved) → String → List String → Expansion → Resolved
with_words deeper current args (unreadable text) = stop current args text
with_words deeper current args (expands w ws) = deeper w (ws ++ args)

abbrev pub expand :
    Shell
    → Option (String → List String → Resolved)
    → List String
    → String
    → List String
    → String
    → Resolved
expand shell none seen current args expansion =
    stop current args (alias_text current expansion " (cyclic)")
expand shell (some deeper) seen current args expansion =
    if elem current seen
    then stop current args (alias_text current expansion " (cyclic)")
    else if starts_with expansion "!"
    then stop current args (alias_text current expansion "")
    else with_words deeper current args (expansion_of current expansion (shell.split expansion))

abbrev pub resolve_step :
    Shell
    → Option (String → List String → Resolved)
    → List String
    → String
    → List String
    → Option String
    → Resolved
resolve_step shell deeper seen current args none = plain current args
resolve_step shell deeper seen current args (some expansion) =
    if is_builtin current
    then plain current args
    else expand shell deeper seen current args expansion

-- The number is how many more aliases may be expanded.
unfoldable pub resolve_from : Shell → Mapping → ℕ → List String → String → List String → Resolved
resolve_from shell aliases zero seen current args =
    resolve_step shell none seen current args (lookup current aliases)
resolve_from shell aliases (suc left) seen current args =
    resolve_step shell (some (resolve_from shell aliases left (current ∷ seen))) seen current args
      (lookup current aliases)

unfoldable pub resolve_alias : Shell → String → List String → Mapping → Resolved
unfolding resolve_from
resolve_alias shell sub args aliases = resolve_from shell aliases max_alias_depth [] sub args
