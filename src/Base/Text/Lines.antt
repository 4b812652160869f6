-- ===== src/Base/Text/Lines.antt =====
-- How `splitlines` acts on a text that grows by one line at its end.
use borromean_rings.Base.Tests.{nat_eq, Bool-cases}
use borromean_rings.Base.Lists.{All}
use Prim.Native.Nat.{ℕ}
use mathlib.Core.Path.{◌≡◌, refl, ap, ◌∙◌}
use mathlib.Core.Logic.{◌⊎◌, inl, inr}
use mathlib.Core.Bool.{Bool, true, false, ◌&&◌}
use mathlib.Core.List.{List, [], ◌∷◌, ◌++◌, append-nil, append_assoc}
use borromean_rings.Base.Text.{is_break, split_from, splitlines}

-- A carriage return leaves an empty line behind it.
abbrev Fresh : Bool → List ℕ → Type 0
Fresh cr line = cr ≡ true → line ≡ []

split_from-break :
    (cr : Bool) (line r s : List ℕ)
    → Fresh cr line
    → split_from cr line (r ++ 10 ∷ s) ≡ split_from cr line (r ++ 10 ∷ []) ++ split_from false [] s
unfolding split_from
split_from-break true line [] s h = unfold is_break in rw (h refl)
split_from-break false line [] s h = unfold is_break in refl
split_from-break cr line (c ∷ r) s h = elim (Bool-cases (cr && nat_eq c 10)) [
  | inl lf ↦ rw (lf, split_from) (split_from-break false line r s (λ e. cc))
  | inr not_lf ↦ elim (Bool-cases (is_break c)) [
    | inl ends ↦
        rw (not_lf, ends, split_from)
          (ap (◌∷◌ line) (split_from-break (nat_eq c 13) [] r s (λ e. refl)))
    | inr stays ↦
        rw (not_lf, stays, split_from) (split_from-break false (line ++ c ∷ []) r s (λ e. cc))
  ]
]

-- Text without a break, closed by a line feed, is one line.
split_from-line :
    (line xs : List ℕ)
    → All (λ c. is_break c ≡ false) xs
    → split_from false line (xs ++ 10 ∷ []) ≡ (line ++ xs) ∷ []
unfolding split_from
split_from-line line [] h = unfold is_break in rw append-nil
split_from-line line (c ∷ xs) h =
    rw (h.0, split_from) (split_from-line (line ++ c ∷ []) xs h.1 ∙ rw append_assoc)

-- A text that is empty or ends with a line feed.
abbrev pub IsClosed : List ℕ → Type 0
IsClosed s = (s ≡ []) ⊎ ((r : List ℕ) × (s ≡ r ++ 10 ∷ []))

-- One more line at the end of a closed text is one more line of `splitlines`.
pub splitlines-append :
    (s xs : List ℕ)
    → IsClosed s
    → All (λ c. is_break c ≡ false) xs
    → splitlines (s ++ (xs ++ 10 ∷ [])) ≡ splitlines s ++ xs ∷ []
unfolding splitlines
splitlines-append s xs (inl e) h = rw e (split_from-line [] xs h)
splitlines-append s xs (inr (r, e)) h = rw e (
    rw append_assoc (
      split_from-break false [] r (xs ++ 10 ∷ []) (λ e. refl)
      ∙ ap (◌++◌ (split_from false [] (r ++ 10 ∷ []))) (split_from-line [] xs h)))
