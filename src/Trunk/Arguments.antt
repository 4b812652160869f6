-- ===== src/Trunk/Arguments.antt =====
-- The flags and the words of the arguments of `git push` (trunk_policy.py).
use borromean_rings.Base.{
  ℕ, String, Bool, true, false, ◌||◌, List, [], ◌∷◌, ◌++◌, ◌==◌, elem, nat_eq, if◌then◌else◌,
}
use Prim.Native.Char.{code}
use borromean_rings.Words.{starts_with}

-- The meanings that the flags of a push can have, as a set.
pub record Flags : Type 0 where
  pub force : Bool
  pub delete : Bool
  pub dry_run : Bool
  pub everything : Bool
  pub tags : Bool

abbrev pub no_flags : Flags
no_flags = record {
  force = false;
  delete = false;
  dry_run = false;
  everything = false;
  tags = false;
}

abbrev pub with_both : Flags → Flags → Flags
with_both a b = record {
  force = a.force || b.force;
  delete = a.delete || b.delete;
  dry_run = a.dry_run || b.dry_run;
  everything = a.everything || b.everything;
  tags = a.tags || b.tags;
}

abbrev force_flags : List String
force_flags = "--force" ∷ "--force-with-lease" ∷ "--force-if-includes" ∷ []

unfoldable pub long_push_flag : String → Flags
unfolding starts_with
long_push_flag arg =
    if starts_with arg "--force-with-lease=" || elem arg force_flags
    then record no_flags { force = true }
    else if arg == "--delete"
    then record no_flags { delete = true }
    else if arg == "--dry-run"
    then record no_flags { dry_run = true }
    else if arg == "--all" || arg == "--mirror"
    then record no_flags { everything = true }
    else if arg == "--tags"
    then record no_flags { tags = true }
    else no_flags

abbrev short_meaning : ℕ → Flags
short_meaning c =
    if nat_eq c 102
    then record no_flags { force = true }
    else if nat_eq c 100
    then record no_flags { delete = true }
    else if nat_eq c 110
    then record no_flags { dry_run = true }
    else no_flags

-- The meanings in a cluster, and whether it ends in `o`, which takes a value.
unfoldable pub short_push_flags : String → Flags × Bool
short_push_flags String.[] = (no_flags, false)
short_push_flags (String.◌∷◌ c cluster) =
    let (found, takes_value) = short_push_flags cluster in
    if nat_eq (code c) 111
    then (no_flags, true)
    else (with_both (short_meaning (code c)) found, takes_value)

abbrev push_with_value : List String
push_with_value = "--repo" ∷ "--receive-pack" ∷ "--exec" ∷ "-o" ∷ "--push-option" ∷ []

-- The flags of one argument, its word if it is positional, and whether the next one is its value.
pub record Argument : Type 0 where
  pub flags : Flags
  pub words : List String
  pub takes_value : Bool

abbrev clustered : Flags × Bool → Argument
clustered (found, takes_value) = record { flags = found; words = []; takes_value = takes_value }

-- `cluster[1:]`
abbrev tail_of : String → String
tail_of String.[] = ""
tail_of (String.◌∷◌ c s) = s

unfoldable pub argument_of : String → Argument
unfolding starts_with long_push_flag short_push_flags
argument_of arg =
    if elem arg push_with_value
    then record { flags = no_flags; words = []; takes_value = true }
    else if starts_with arg "--"
    then record { flags = long_push_flag arg; words = []; takes_value = false }
    else if starts_with arg "-"
    then clustered (short_push_flags (tail_of arg))
    else record { flags = no_flags; words = arg ∷ []; takes_value = false }

-- The flag says that the next argument is the value of the one before.
unfoldable pub push_words : Bool → List String → Flags × List String
push_words skip [] = (no_flags, [])
push_words true (value ∷ args) = push_words false args
push_words false (arg ∷ args) =
    let a = argument_of arg in
    let (flags, positional) = push_words a.takes_value args in
    (with_both a.flags flags, a.words ++ positional)
