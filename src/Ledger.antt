-- ===== src/Ledger.antt =====
-- The effectiveness ledger: `summarize_history`, the row of a project and the totals (ledger.py).
pub mod Streak
pub mod Bounds
pub mod Recorded
use mathlib.Core.List.{reverse}
use borromean_rings.Base.{
  ℕ, suc, String, Bool, true, false, not, List, [], ◌∷◌, length, keep, if◌then◌else◌,
}
use borromean_rings.Base.{◌+◌, Option, leb, map}
use borromean_rings.Gate.Verdict.{Verdict}
use borromean_rings.Gate.History.{Codec, read_history}

pub record LedgerSummary : Type 0 where
  pub path : String
  pub runs : ℕ
  pub failures_caught : ℕ
  pub current_streak : ℕ
  pub streak_kind : String
  pub evidenced : ℕ

abbrev pub same : Bool → Bool → Bool
same true b = b
same false b = not b

abbrev pub is_nonempty {ℓ} : {A : Type ℓ} → List A → Bool
is_nonempty [] = false
is_nonempty (x ∷ xs) = true

-- The loop over `reversed(history)`, up to its `break`.
unfoldable pub streak_from : Bool → List Verdict → ℕ
streak_from latest [] = 0
streak_from latest (v ∷ vs) =
    let rest = streak_from latest vs in if same v.ok latest then suc rest else 0

abbrev pub kind_of : Bool → String
kind_of true = "green"
kind_of false = "red"

-- The streak and its kind, of a history from its latest run back.
abbrev pub streak_of : List Verdict → ℕ × String
streak_of [] = (0, "none")
streak_of (latest ∷ older) = (streak_from latest.ok (latest ∷ older), kind_of latest.ok)

unfoldable pub summarize_history : String → List Verdict → LedgerSummary
unfolding streak_from
summarize_history path history =
    let (streak, kind) = streak_of (reverse history) in
    record {
      path = path;
      runs = length history;
      failures_caught = length (keep (λ (v : Verdict). not v.ok) history);
      current_streak = streak;
      streak_kind = kind;
      evidenced = length (keep (λ (v : Verdict). is_nonempty v.evidence) history);
    }

-- `summarize_history(str(project), read_history(project))`, of a project and its history file.
unfoldable pub ledger_row : Codec → String × Option (List ℕ) → LedgerSummary
ledger_row codec (path, file) = summarize_history path (read_history codec file)

abbrev pub sum_of {ℓ} : {A : Type ℓ} → (A → ℕ) → List A → ℕ
sum_of count [] = 0
sum_of count (x ∷ xs) = count x + sum_of count xs

-- The counts of the line of `summarize`.
pub record Totals : Type 0 where
  pub governed : ℕ
  pub gated : ℕ
  pub total_runs : ℕ
  pub total_caught : ℕ
  pub total_evidenced : ℕ

unfoldable pub summarize : List LedgerSummary → Totals
summarize summaries = record {
  governed = length summaries;
  gated = length (keep (λ (s : LedgerSummary). leb 1 s.runs) summaries);
  total_runs = sum_of (λ (s : LedgerSummary). s.runs) summaries;
  total_caught = sum_of (λ (s : LedgerSummary). s.failures_caught) summaries;
  total_evidenced = sum_of (λ (s : LedgerSummary). s.evidenced) summaries;
}

-- The summaries that `main` prints, of the projects that were found.
unfoldable pub ledger : Codec → List (String × Option (List ℕ)) → List LedgerSummary
ledger codec projects = map (ledger_row codec) projects
