-- ===== src/Ledger/Recorded.antt =====
-- How the row of a project changes when the gate records one more run.
use borromean_rings.Base.{
  ℕ, suc, ◌+◌, String, ◌≡◌, refl, ◌∙◌, ap, Bool, true, false, not, Option, List, [], ◌∷◌, ◌++◌,
  length, keep, length-append, arith, if◌then◌else◌, ◌==◌,
}
use borromean_rings.Gate.Verdict.{Verdict}
use borromean_rings.Gate.History.{Codec, read_history, append_history}
use borromean_rings.Gate.History.Growth.{IsFaithful, IsClosedFile, read_history-append_history}
use borromean_rings.Ledger.{LedgerSummary, summarize_history, ledger_row, kind_of, is_nonempty}
use borromean_rings.Ledger.Streak.{keep-append, streak-append}

-- What one more run makes of a row.
abbrev pub IsAdvanced : Verdict → LedgerSummary → LedgerSummary → Type 0
IsAdvanced v before after =
    (after.path ≡ before.path)
    × (after.runs ≡ suc before.runs)
    × (after.failures_caught ≡ before.failures_caught + (if v.ok then 0 else 1))
    × (after.evidenced ≡ before.evidenced + (if is_nonempty v.evidence then 1 else 0))
    × (after.current_streak
        ≡ (if before.streak_kind == kind_of v.ok then suc before.current_streak else 1))
    × (after.streak_kind ≡ kind_of v.ok)

count-append {ℓ} :
    {A : Type ℓ} (p : A → Bool) (xs : List A) (x : A)
    → length (keep p (xs ++ x ∷ [])) ≡ length (keep p xs) + (if p x then 1 else 0)
count-append p xs x =
    ap length (keep-append p xs (x ∷ []))
    ∙ (let f = length-append (keep p xs) (keep p (x ∷ [])) in ground (arith, f))

failed : (b : Bool) → ◌≡◌ {A = ℕ} (if not b then 1 else 0) (if b then 0 else 1)
failed true = refl
failed false = refl

summarize_history-append :
    (path : String) (history : List Verdict) (v : Verdict)
    → IsAdvanced v (summarize_history path history) (summarize_history path (history ++ v ∷ []))
unfolding summarize_history
summarize_history-append path history v =
    let (streak, kind) = streak-append path history v in
    let runs = length-append history (v ∷ []) in
    (
      refl,
      omega (arith, runs),
      rw (count-append (λ (v : Verdict). not v.ok) history v) (ap (◌+◌ _) (failed v.ok)),
      count-append (λ (v : Verdict). is_nonempty v.evidence) history v,
      streak,
      kind,
    )

-- When the gate appends a verdict to the history of a project, its ledger row counts one more run,
-- one more failure if the verdict failed, one more evidenced run if it has evidence, and a streak
-- that is one longer if the verdict is of the streak's kind and starts at one if not. The history
-- may be missing or damaged, but ends with a line feed, and JSON keeps the verdict.
pub ledger_row-append_history :
    (codec : Codec) (path : String) (file : Option (List ℕ)) (v : Verdict)
    → IsClosedFile file
    → IsFaithful codec v
    → IsAdvanced v
        (ledger_row codec (path, file))
        (ledger_row codec (path, append_history codec file v))
unfolding ledger_row
ledger_row-append_history codec path file v closed h =
    rw (read_history-append_history codec file v closed h)
      (summarize_history-append path (read_history codec file) v)
