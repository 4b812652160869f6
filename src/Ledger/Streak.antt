-- ===== src/Ledger/Streak.antt =====
-- How a ledger row changes with one more run, and what its counts say.
use mathlib.Core.List.{reverse, reverse-append}
use borromean_rings.Base.{
  ℕ, suc, String, ◌≡◌, refl, ◌↔◌, Bool, true, false, not, List, [], ◌∷◌, ◌++◌, length, keep, All,
  arith, if◌then◌else◌, ◌==◌, ap, Bool-cases, inl, inr,
}
use borromean_rings.Gate.Verdict.{Verdict}
use borromean_rings.Ledger.{summarize_history, streak_from, streak_of, kind_of, same}

pub keep-append {ℓ} :
    {A : Type ℓ} (p : A → Bool) (xs ys : List A) → keep p (xs ++ ys) ≡ keep p xs ++ keep p ys
keep-append p [] ys = refl
keep-append p (x ∷ xs) ys = elim (Bool-cases (p x)) [
  | inl e ↦ rw e (ap (◌∷◌ x) (keep-append p xs ys))
  | inr e ↦ rw e (keep-append p xs ys)
]

first_run :
    (b : Bool) → ◌≡◌ {A = ℕ} (if same b b then 1 else 0) (if "none" == kind_of b then 1 else 1)
first_run true = refl
first_run false = refl

later_run :
    (a b : Bool) (rest : Bool → ℕ)
    → (if same b b then suc (if same a b then suc (rest b) else 0) else 0)
      ≡ (if kind_of a == kind_of b then suc (if same a a then suc (rest a) else 0) else 1)
later_run true true rest = refl
later_run true false rest = refl
later_run false true rest = refl
later_run false false rest = refl

streak_cons :
    (v : Verdict) (older : List Verdict)
    → (streak_of (v ∷ older)).0
      ≡ (if (streak_of older).1 == kind_of v.ok then suc (streak_of older).0 else 1)
unfolding streak_from
streak_cons v [] = first_run v.ok
streak_cons v (w ∷ older) = later_run w.ok v.ok (λ b. streak_from b older)

-- One more run lengthens the streak when it ended as the one before it, and starts a streak of one
-- run when it did not; it sets the kind of the streak.
pub streak-append :
    (path : String) (history : List Verdict) (v : Verdict)
    → let before = summarize_history path history in
      let after = summarize_history path (history ++ v ∷ []) in
      (after.current_streak
        ≡ (if before.streak_kind == kind_of v.ok then suc before.current_streak else 1))
      × (after.streak_kind ≡ kind_of v.ok)
unfolding summarize_history
streak-append path history v = rw reverse-append (streak_cons v (reverse history), refl)

passed_of_zero :
    (history : List Verdict)
    → length (keep (λ (v : Verdict). not v.ok) history) ≡ 0
    → All (λ (v : Verdict). v.ok ≡ true) history
passed_of_zero [] h = tt
passed_of_zero (v ∷ vs) h = (ground arith, passed_of_zero vs (ground arith))

zero_of_passed :
    (history : List Verdict)
    → All (λ (v : Verdict). v.ok ≡ true) history
    → length (keep (λ (v : Verdict). not v.ok) history) ≡ 0
zero_of_passed [] h = refl
zero_of_passed (v ∷ vs) h = rw h.0 (zero_of_passed vs h.1)

-- A ledger row shows no failure caught exactly when every recorded run passed.
pub failures_caught-zero :
    (path : String) (history : List Verdict)
    → ((summarize_history path history).failures_caught ≡ 0)
      ↔ All (λ (v : Verdict). v.ok ≡ true) history
unfolding summarize_history
failures_caught-zero path history = (passed_of_zero history, zero_of_passed history)
