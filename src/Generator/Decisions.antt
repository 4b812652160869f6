-- ===== src/Generator/Decisions.antt =====
-- When the loop goes on, and which verdicts and labels it accepts.
use borromean_rings.Base.{
  ℕ, zero, suc, ◌≤◌, ◌<◌, String, ◌≡◌, refl, ◌↔◌, Bool, true, false, not, ◌||◌, Option, none, some,
  List, [], ◌∷◌, ◌==◌, any, arith, Bool-cases, inl, inr, eq_iff,
}
use borromean_rings.Base.Decimal.{strip}
use borromean_rings.Json.{ℤ, pos, negsuc}
use borromean_rings.StateHome.{take_chars}
use borromean_rings.Retry.Count.{count_chars}
use borromean_rings.Gate.Status.{is_failing}
use borromean_rings.Gate.Verdict.{Verdict}
use borromean_rings.Generator.{
  green, retry, next_action, has_control, read_generator, failing_check_ids, is_empty, same_bool,
  label_of, no_mismatch, verdict_mismatch, max_generator_length,
}

-- The loop retries exactly below the cap, on a red gate, after a generator that exited with 0 and
-- changed the tree.
pub next_action-retry :
    (attempt cap : ℕ) (gate_ok tree_changed : Bool) (exit_code : ℤ)
    → (next_action attempt cap gate_ok tree_changed exit_code ≡ some retry) ↔ (
        (1 ≤ attempt)
        × (attempt < cap)
        × (gate_ok ≡ false)
        × (tree_changed ≡ true)
        × (exit_code ≡ pos 0))
unfolding next_action
next_action-retry attempt cap gate_ok tree_changed (pos n) = ground arith
next_action-retry attempt cap gate_ok tree_changed (negsuc n) = ground arith

-- The loop ends green exactly on a green gate after a generator that exited with 0 and changed the
-- tree, on the last attempt as on the first.
pub next_action-green :
    (attempt cap : ℕ) (gate_ok tree_changed : Bool) (exit_code : ℤ)
    → (next_action attempt cap gate_ok tree_changed exit_code ≡ some green)
      ↔ ((1 ≤ attempt) × (1 ≤ cap) × (gate_ok ≡ true) × (tree_changed ≡ true) × (exit_code ≡ pos 0))
unfolding next_action
next_action-green attempt cap gate_ok tree_changed (pos n) = ground arith
next_action-green attempt cap gate_ok tree_changed (negsuc n) = ground arith

is_empty-failing_check_ids :
    (checks : List (String × String))
    → is_empty (failing_check_ids checks)
      ≡ not (any (λ (c : String × String). is_failing c.1) checks)
unfolding failing_check_ids
is_empty-failing_check_ids [] = refl
is_empty-failing_check_ids ((id, status) ∷ checks) =
    ground (arith, is_empty-failing_check_ids checks)

same_bool_iff : (a b : Bool) → (same_bool a b ≡ true) ↔ (a ≡ b)
same_bool_iff true true = ground arith
same_bool_iff true false = ground arith
same_bool_iff false true = ground arith
same_bool_iff false false = ground arith

-- A verdict that was read is accepted exactly when it describes the run just made, agrees with the
-- gate's exit, and names a failing check where the gate failed.
pub verdict_mismatch-none :
    (v : Verdict) (run_id : String) (gate_ok : Bool)
    → (verdict_mismatch (some v) run_id gate_ok ≡ no_mismatch) ↔ (
        (v.run_id ≡ run_id)
        × (v.ok ≡ gate_ok)
        × ((gate_ok || any (λ (c : String × String). is_failing c.1) v.checks) ≡ true))
unfolding verdict_mismatch
verdict_mismatch-none v run_id gate_ok =
    ground (
      arith,
      is_empty-failing_check_ids v.checks,
      eq_iff v.run_id run_id,
      same_bool_iff v.ok gate_ok,
    )

take-clean : (n : ℕ) (s : String) → has_control s ≡ false → has_control (take_chars n s) ≡ false
unfolding has_control
take-clean zero s h = refl
take-clean (suc n) String.[] h = refl
take-clean (suc n) (String.◌∷◌ c s) h = ground (arith, take-clean n s)

pub take-short : (n : ℕ) (s : String) → count_chars (take_chars n s) ≤ n
take-short zero s = omega arith
take-short (suc n) String.[] = omega arith
take-short (suc n) (String.◌∷◌ c s) = omega (arith, take-short n s)

abbrev IsLabel : String → Type 0
IsLabel s = (has_control s ≡ false) × (count_chars s ≤ 128)

empty-IsLabel : IsLabel ""
unfolding has_control
empty-IsLabel = (refl, omega arith)

label_of-IsLabel : (s : String) → IsLabel (label_of s)
label_of-IsLabel s = elim (Bool-cases (has_control s)) [
  | inl e ↦ rw e empty-IsLabel
  | inr e ↦ rw e (take-clean max_generator_length s e, take-short max_generator_length s)
]

-- The label that is recorded for a generator holds no control character and at most 128
-- characters.
pub read_generator-clean :
    (raw : Option String)
    → (has_control (read_generator raw) ≡ false) × (count_chars (read_generator raw) ≤ 128)
unfolding read_generator
read_generator-clean none = empty-IsLabel
read_generator-clean (some raw) = elim (Bool-cases (raw == "")) [
  | inl e ↦ rw e empty-IsLabel
  | inr e ↦ rw e (label_of-IsLabel (strip raw))
]
