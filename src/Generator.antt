-- ===== src/Generator.antt =====
-- The decision core of the generator loop (generator.py).
pub mod Decisions
pub mod Watch
use Prim.Native.Char.{code}
use Prim.Native.String
use Prim.Native.String.{compare}
use Prim.Native.Nat.{Ordering}
use borromean_rings.Base.{
  ℕ, String, Bool, true, false, not, ◌||◌, ◌&&◌, Option, none, some, List, [], ◌∷◌, ◌++◌, ◌==◌,
  keep, leb, ltb, nat_eq, map, if◌then◌else◌,
}
use borromean_rings.Base.Decimal.{strip}
use borromean_rings.Base.Names.{insert_name, sorted_names}
use borromean_rings.Json.{ℤ, pos, negsuc}
use borromean_rings.StateHome.{take_chars}
use borromean_rings.Gate.Status.{is_failing}
use borromean_rings.Gate.Verdict.{Verdict}

pub data Action : Type 0 where
  green retry escalated generator_failed : Action

abbrev is_zero : ℤ → Bool
is_zero (pos n) = nat_eq n 0
is_zero (negsuc n) = false

-- `none` is the ValueError on a count below 1; the counts are no negative numbers.
unfoldable pub next_action : ℕ → ℕ → Bool → Bool → ℤ → Option Action
next_action attempt cap gate_ok tree_changed exit_code =
    if ltb attempt 1 || ltb cap 1
    then none
    else if not (is_zero exit_code)
    then some generator_failed
    else if not tree_changed
    then some escalated
    else if gate_ok
    then some green
    else if leb cap attempt
    then some escalated
    else some retry

abbrev pub max_generator_length : ℕ
max_generator_length = 128

abbrev is_control : ℕ → Bool
is_control c = ltb c 32 || nat_eq c 127

unfoldable pub has_control : String → Bool
has_control String.[] = false
has_control (String.◌∷◌ c s) = is_control (code c) || has_control s

abbrev label_of : String → String
label_of value = if has_control value then "" else take_chars max_generator_length value

unfoldable pub read_generator : Option String → String
read_generator none = ""
read_generator (some raw) = if raw == "" then "" else label_of (strip raw)

unfoldable pub failing_check_ids : List (String × String) → List String
failing_check_ids checks =
    map (λ (c : String × String). c.0) (keep (λ (c : String × String). is_failing c.1) checks)

-- A reading of the evidence area: the fingerprint of each path.
abbrev pub Snapshot : Type 0
Snapshot = List (String × String)

unfoldable pub lookup : String → Snapshot → Option String
lookup name [] = none
lookup name ((n, print) ∷ snapshot) = if name == n then some print else lookup name snapshot

pub data Write : Type 0 where
  added removed modified : String → Write

abbrev pub write_of : String → Option String → Option String → Option Write
write_of name none after = some (added name)
write_of name (some b) none = some (removed name)
write_of name (some b) (some a) = if b == a then none else some (modified name)

abbrev pub push_write : Option Write → List Write → List Write
push_write none writes = writes
push_write (some w) writes = w ∷ writes

unfoldable pub writes_among : Snapshot → Snapshot → List String → List Write
writes_among before after [] = []
writes_among before after (n ∷ ns) =
    push_write (write_of n (lookup n before) (lookup n after)) (writes_among before after ns)

abbrev pub names_in : Snapshot → List String
names_in snapshot = map (λ (e : String × String). e.0) snapshot

unfoldable pub evidence_writes : Snapshot → Snapshot → List Write
evidence_writes before after =
    writes_among before after (sorted_names (names_in before ++ names_in after))

pub data Mismatch : Type 0 where
  no_mismatch no_verdict other_run disagrees names_nothing : Mismatch

abbrev is_empty : List String → Bool
is_empty [] = true
is_empty (x ∷ xs) = false

abbrev same_bool : Bool → Bool → Bool
same_bool true b = b
same_bool false b = not b

unfoldable pub verdict_mismatch : Option Verdict → String → Bool → Mismatch
verdict_mismatch none run_id gate_ok = no_verdict
verdict_mismatch (some v) run_id gate_ok =
    if not (v.run_id == run_id)
    then other_run
    else if not (same_bool v.ok gate_ok)
    then disagrees
    else if not gate_ok && is_empty (failing_check_ids v.checks)
    then names_nothing
    else no_mismatch
