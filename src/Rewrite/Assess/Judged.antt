-- ===== src/Rewrite/Assess/Judged.antt =====
-- When a reply honours the contract.
use borromean_rings.Base.{
  ℕ, String, ◌≡◌, refl, ◌↔◌, true, false, Option, ◌==◌, Bool-cases, inl, inr, eq_iff,
}
use borromean_rings.StateHome.{take_chars}
use borromean_rings.Words.{starts_with}
use borromean_rings.Rewrite.{Tools}
use borromean_rings.Rewrite.Assess.{marker, matched_limit, is_trivial, opening_line, assess_reply}
use mathlib.Core.Bool.{false≢true}

-- A reply honours the contract exactly when the prompt was no bare follow-up and the first line of
-- the reply that is not blank, without its decoration, opens with the marker in any case.
pub assess_reply-honoured :
    (tools : Tools) (prompt reply : String) (line : Option ℕ)
    → ((assess_reply tools prompt reply line).status ≡ "honoured") ↔ (
        (is_trivial tools prompt ≡ false)
        × ((take_chars matched_limit (opening_line reply) == "") ≡ false)
        × (starts_with
              (tools.lower (take_chars matched_limit (opening_line reply)))
              (tools.lower marker)
            ≡ true))
unfolding assess_reply
assess_reply-honoured tools prompt reply line =
    let opening = take_chars matched_limit (opening_line reply) in
    elim (Bool-cases (is_trivial tools prompt)) [
      | inl e ↦ rw e (λ h. absurd (false≢true ((eq_iff "exempt" "honoured").1 h)), λ (a, b, c). cc)
      | inr e ↦ elim (Bool-cases (opening == "")) [
        | inl f ↦
            rw (e, f)
              (λ h. absurd (false≢true ((eq_iff "not_honoured" "honoured").1 h)), λ (a, b, c). cc)
        | inr f ↦ elim (Bool-cases (starts_with (tools.lower opening) (tools.lower marker))) [
          | inl g ↦ rw (e, f, g) (λ h. (refl, refl, refl), λ h. refl)
          | inr g ↦
              rw (e, f, g)
                (λ h. absurd (false≢true ((eq_iff "not_honoured" "honoured").1 h)), λ (a, b, c). cc)
        ]
      ]
    ]
