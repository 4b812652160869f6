-- ===== src/Gate/Status/Bands.antt =====
-- What a risk band says of the run that it was derived from.
use borromean_rings.Base.{
  String, ◌≡◌, refl, ◌≢◌, ◌↔◌, ◌⊎◌, inl, inr, Bool, true, false, List, [], ◌∷◌, ◌==◌, eq_iff, arith,
  All, any, map, Bool-cases,
}
use borromean_rings.Gate.Status.{is_failing, risk_band, risk_green, risk_red}

abbrev pub Passed : String × String → Type 0
Passed c = c.1 ≡ "pass"

abbrev pub Clean : String × String → Type 0
Clean c = (c.1 ≡ "pass") ⊎ (c.1 ≡ "noop")

is_failing-Clean : (c : String × String) → is_failing c.1 ≡ false → Clean c
unfolding is_failing
is_failing-Clean c h = ground (arith, eq_iff c.1 "pass", eq_iff c.1 "noop")

Clean-is_failing : (c : String × String) → Clean c → is_failing c.1 ≡ false
unfolding is_failing
Clean-is_failing c h = ground (arith, eq_iff c.1 "pass", eq_iff c.1 "noop")

abbrev statuses : List (String × String) → List String
statuses = map (λ (c : String × String). c.1)

All-Clean : (cs : List (String × String)) → any is_failing (statuses cs) ≡ false → All Clean cs
All-Clean [] h = tt
All-Clean (c ∷ cs) h = (is_failing-Clean c (ground arith), All-Clean cs (ground arith))

none_failing : (cs : List (String × String)) → All Clean cs → any is_failing (statuses cs) ≡ false
none_failing [] h = refl
none_failing (c ∷ cs) h = ground (arith, Clean-is_failing c h.0, none_failing cs h.1)

abbrev is_noop : String → Bool
is_noop s = s == "noop"

All-Passed :
    (cs : List (String × String)) → All Clean cs → any is_noop (statuses cs) ≡ false → All Passed cs
All-Passed [] h n = tt
All-Passed (c ∷ cs) h n = (ground (arith, eq_iff c.1 "noop"), All-Passed cs h.1 (ground arith))

Passed-Clean : (cs : List (String × String)) → All Passed cs → All Clean cs
Passed-Clean [] h = tt
Passed-Clean (c ∷ cs) h = (inl h.0, Passed-Clean cs h.1)

Passed-noop : (cs : List (String × String)) → All Passed cs → any is_noop (statuses cs) ≡ false
Passed-noop [] h = refl
Passed-noop (c ∷ cs) h = rw h.0 (Passed-noop cs h.1)

-- The tests behind a green band.
green_tests :
    (cs : List (String × String))
    → risk_band cs ≡ risk_green
    → (any is_failing (statuses cs) ≡ false) × (cs ≢ []) × (any is_noop (statuses cs) ≡ false)
unfolding risk_band
green_tests [] h = ground (arith, eq_iff "hollow" "green")
green_tests (c ∷ cs) h = ground (arith, eq_iff "red" "green", eq_iff "hollow" "green")

risk_band_of_tests :
    (c : String × String) (cs : List (String × String))
    → any is_failing (statuses (c ∷ cs)) ≡ false
    → any is_noop (statuses (c ∷ cs)) ≡ false
    → risk_band (c ∷ cs) ≡ risk_green
unfolding risk_band
risk_band_of_tests c cs h n = rw (h, n)

-- The band of a run is green exactly when the run has a check and every status is "pass".
pub risk_band-green :
    (cs : List (String × String)) → (risk_band cs ≡ risk_green) ↔ ((cs ≢ []) × All Passed cs)
risk_band-green [] = (λ h. absurd ((green_tests [] h).1 refl), λ h. absurd (h.0 refl))
risk_band-green (c ∷ cs) = (
  λ h. let (f, e, n) = green_tests (c ∷ cs) h in (e, All-Passed (c ∷ cs) (All-Clean (c ∷ cs) f) n),
  λ h.
      risk_band_of_tests c cs (none_failing (c ∷ cs) (Passed-Clean (c ∷ cs) h.1))
        (Passed-noop (c ∷ cs) h.1),
)

red_test :
    (cs : List (String × String)) → risk_band cs ≡ risk_red → any is_failing (statuses cs) ≡ true
unfolding risk_band
red_test [] h = ground (arith, eq_iff "hollow" "red")
red_test (c ∷ cs) h = ground (arith, eq_iff "green" "red", eq_iff "hollow" "red")

-- The band of a run is red exactly when some status is neither "pass" nor "noop".
pub risk_band-red : (cs : List (String × String)) → (risk_band cs ≡ risk_red) ↔ ¬ All Clean cs
unfolding risk_band
risk_band-red cs = (
  λ h c. cc (red_test cs h, none_failing cs c),
  λ h. elim (Bool-cases (any is_failing (statuses cs))) [
    | inl bad ↦ rw bad
    | inr good ↦ absurd (h (All-Clean cs good))
  ],
)
