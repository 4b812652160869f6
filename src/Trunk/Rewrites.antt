-- ===== src/Trunk/Rewrites.antt =====
-- Local commands that delete or move a branch (trunk_policy.py).
pub mod Exact
use Prim.Native.Char.{code}
use Prim.Native.String
use Prim.Native.String.{◌++◌ as text_append}
use borromean_rings.Base.{
  ℕ, String, Bool, true, false, not, ◌||◌, ◌&&◌, Option, none, some, List, [], ◌∷◌, ◌==◌, elem, any,
  keep, nat_eq, if◌then◌else◌,
}
use borromean_rings.Words.{starts_with, remove_prefix}
use borromean_rings.Trunk.Command.{positional_of}
use borromean_rings.Trunk.Push.{Reason, rewrites}

-- The first name that is a protected branch, in either spelling.
unfoldable pub protected_name : List String → List String → Option String
unfolding remove_prefix
protected_name protected [] = none
protected_name protected (n ∷ names) =
    let rest = protected_name protected names in
    let name = remove_prefix n "refs/heads/" in if elem name protected then some name else rest

abbrev pub reason_for : String → Option String → Option Reason
reason_for label none = none
reason_for label (some hit) = some (rewrites label hit)

unfoldable pub rewrite_reason : String → List String → List String → Option Reason
unfolding protected_name
rewrite_reason label names protected = reason_for label (protected_name protected names)

abbrev pub branch_rewrite_flags : List String
branch_rewrite_flags = "-d" ∷ "-D" ∷ "--delete" ∷ "-f" ∷ "--force" ∷ "-m" ∷ "-M" ∷ "--move" ∷ []

abbrev pub first_where : (String → Bool) → List String → Option String
first_where p [] = none
first_where p (a ∷ args) = let rest = first_where p args in if p a then some a else rest

-- `set(a[1:]) & set("dDfmM")`
abbrev is_rewrite_letter : ℕ → Bool
is_rewrite_letter c =
    nat_eq c 100 || (nat_eq c 68 || (nat_eq c 102 || (nat_eq c 109 || nat_eq c 77)))

unfoldable pub has_rewrite_letter : String → Bool
has_rewrite_letter String.[] = false
has_rewrite_letter (String.◌∷◌ c s) = is_rewrite_letter (code c) || has_rewrite_letter s

abbrev tail_of : String → String
tail_of String.[] = ""
tail_of (String.◌∷◌ c s) = s

unfoldable pub is_rewrite_cluster : String → Bool
unfolding starts_with has_rewrite_letter
is_rewrite_cluster a =
    starts_with a "-" && (not (starts_with a "--") && has_rewrite_letter (tail_of a))

abbrev or_else : Option String → Option String → Option String
or_else none later = later
or_else (some a) later = some a

unfoldable pub rewrite_flag : List String → Option String
unfolding is_rewrite_cluster
rewrite_flag args =
    or_else (first_where (λ a. elem a branch_rewrite_flags) args)
      (first_where is_rewrite_cluster args)

abbrev pub branch_at : Option String → List String → List String → Option Reason
branch_at none args protected = none
branch_at (some flag) args protected =
    rewrite_reason (text_append "git branch " flag) (positional_of args) protected

unfoldable pub branch_violation : List String → List String → Option Reason
branch_violation args protected = branch_at (rewrite_flag args) args protected

abbrev switch_flags : String → List String
switch_flags sub = if sub == "checkout" then "-B" ∷ [] else "-C" ∷ "--force-create" ∷ []

-- The first flag that creates or resets a branch, with the argument after it.
unfoldable pub switched_to : List String → List String → Option (String × String)
switched_to flags [] = none
switched_to flags (a ∷ []) = none
switched_to flags (a ∷ next ∷ args) =
    let rest = switched_to flags (next ∷ args) in if elem a flags then some (a, next) else rest

abbrev switch_at : String → List String → Option (String × String) → Option Reason
switch_at sub protected none = none
switch_at sub protected (some (flag, name)) =
    rewrite_reason (text_append (text_append "git " sub) (text_append " " flag)) (name ∷ [])
      protected

-- `sub` is `checkout` or `switch`.
unfoldable pub switch_violation : String → List String → List String → Option Reason
unfolding switched_to
switch_violation sub args protected = switch_at sub protected (switched_to (switch_flags sub) args)

unfoldable pub update_ref_violation : List String → List String → Option Reason
unfolding starts_with
update_ref_violation args protected =
    rewrite_reason "git update-ref" (keep (λ a. starts_with a "refs/heads/") args) protected
