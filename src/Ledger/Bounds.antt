-- ===== src/Ledger/Bounds.antt =====
-- How the counts of a ledger row bound each other.
use mathlib.Core.List.{reverse, reverse-cons}
use borromean_rings.Base.{
  ℕ, suc, ◌+◌, ◌≤◌, String, ◌≡◌, refl, ◌∙◌, ap, Bool, true, false, not, List, [], ◌∷◌, length, keep,
  length-append, length-keep-le, arith, if◌then◌else◌, ◌==◌, nat_eq,
}
use borromean_rings.Gate.Verdict.{Verdict}
use borromean_rings.Ledger.{
  LedgerSummary, summarize_history, streak_from, streak_of, kind_of, same, is_nonempty,
}
use borromean_rings.Ledger.Streak.{keep-append}

count-reverse {ℓ} :
    {A : Type ℓ} (p : A → Bool) (xs : List A) → length (keep p (reverse xs)) ≡ length (keep p xs)
count-reverse p [] = refl
count-reverse p (x ∷ xs) =
    ap (λ ys. length (keep p ys)) (reverse-cons x xs)
    ∙ ap length (keep-append p (reverse xs) (x ∷ []))
    ∙ (let f = length-append (keep p (reverse xs)) (keep p (x ∷ [])) in
        let g = count-reverse p xs in ground (arith, f, g))

length-reverse {ℓ} : {A : Type ℓ} (xs : List A) → length (reverse xs) ≡ length xs
length-reverse [] = refl
length-reverse (x ∷ xs) =
    ap length (reverse-cons x xs)
    ∙ (let f = length-append (reverse xs) (x ∷ []) in
        let g = length-reverse xs in omega (arith, f, g))

-- The runs of a history that caught a failure.
abbrev failures : List Verdict → ℕ
failures history = length (keep (λ (v : Verdict). not v.ok) history)

-- A red streak is made of failures, a green one of the other runs.
red_streak-le : (vs : List Verdict) → streak_from false vs ≤ failures vs
unfolding streak_from
red_streak-le [] = omega arith
red_streak-le (v ∷ vs) = ground (arith, red_streak-le vs)

green_streak-le : (vs : List Verdict) → failures vs + streak_from true vs ≤ length vs
unfolding streak_from
green_streak-le [] = omega arith
green_streak-le (v ∷ vs) =
    ground (arith, green_streak-le vs, length-keep-le (λ (v : Verdict). not v.ok) vs)

-- The streak, if it is of a kind.
abbrev pub streak_if : String → LedgerSummary → ℕ
streak_if kind s = if s.streak_kind == kind then s.current_streak else 0

bounds_of :
    (ok : Bool) (vs : List Verdict)
    → let streak = streak_from ok vs in
      ((if kind_of ok == "red" then streak else 0) ≤ failures vs)
      × (failures vs + (if kind_of ok == "green" then streak else 0) ≤ length vs)
bounds_of true vs = (omega arith, green_streak-le vs)
bounds_of false vs =
    let few = length-keep-le (λ (v : Verdict). not v.ok) vs in
    (red_streak-le vs, omega (arith, few))

streak-bounds :
    (vs : List Verdict)
    → let (streak, kind) = streak_of vs in
      ((if kind == "red" then streak else 0) ≤ failures vs)
      × (failures vs + (if kind == "green" then streak else 0) ≤ length vs)
streak-bounds [] = (omega arith, omega arith)
streak-bounds (v ∷ vs) = bounds_of v.ok (v ∷ vs)

latest_counts :
    (ok : Bool) (m n : ℕ) → nat_eq (if same ok ok then suc m else 0) 0 ≡ nat_eq (suc n) 0
latest_counts true m n = ground arith
latest_counts false m n = ground arith

streak_exists : (vs : List Verdict) → nat_eq (streak_of vs).0 0 ≡ nat_eq (length vs) 0
unfolding streak_from
streak_exists [] = refl
streak_exists (v ∷ vs) = latest_counts v.ok (streak_from v.ok vs) (length vs)

-- The counts of a row fit together: a red streak is no longer than the failures caught, a green
-- one than the runs that are no failure, no more runs have evidence than there are, and there is
-- no streak exactly when there is no run.
pub summarize_history-bounds :
    (path : String) (history : List Verdict)
    → let s = summarize_history path history in
      (streak_if "red" s ≤ s.failures_caught)
      × (s.failures_caught + streak_if "green" s ≤ s.runs)
      × (s.evidenced ≤ s.runs)
      × (nat_eq s.current_streak 0 ≡ nat_eq s.runs 0)
unfolding summarize_history
summarize_history-bounds path history =
    let (red, green) = streak-bounds (reverse history) in
    let caught = count-reverse (λ (v : Verdict). not v.ok) history in
    let runs = length-reverse history in
    let exists = streak_exists (reverse history) in
    (
      rw caught at red,
      rw (caught, runs) at green,
      length-keep-le (λ (v : Verdict). is_nonempty v.evidence) history,
      rw runs at exists,
    )
