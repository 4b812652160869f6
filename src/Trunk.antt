-- ===== src/Trunk.antt =====
-- The branch policy (trunk_policy.py, trunk_aliases.py): which shell commands are refused because
-- they would write a protected branch.
pub mod Aliases
pub mod Arguments
pub mod Command
pub mod Config
pub mod Guard
pub mod Planted
pub mod Push
pub mod Rewrites
use borromean_rings.Base.{ℕ, String, Bool, Option, List}

-- What the sources take from `shlex`, `os.path`, `fnmatch` and `re`: the tokens of a line, `none`
-- where it cannot be lexed; the words of a text, and their quoted join; a joined and normalised path;
-- whether a name matches a pattern; lower case; and the word characters beyond ASCII.
pub record Shell : Type 0 where
  pub tokenize : String → Option (List String)
  pub split : String → Option (List String)
  pub join : List String → String
  pub join_path : String → String → String
  pub fnmatch : String → String → Bool
  pub lower : String → String
  pub is_letter : ℕ → Bool

-- A git invocation and the directory that the shell would run it in.
pub record Invocation : Type 0 where
  pub argv : List String
  pub cwd : Option String

-- The repository that an invocation acts on.
pub record RepoFacts : Type 0 where
  pub head : String
  pub aliases : List (String × String)
  pub governed : Bool
