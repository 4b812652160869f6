-- ===== src/Gate/Status.antt =====
-- The classification of receipt statuses and the risk bands (verdict.py).
pub mod Bands
use borromean_rings.Base.{
  String, Bool, true, not, List, [], ◌∷◌, ◌==◌, elem, any, map, if◌then◌else◌, ◌||◌,
}

-- NON_FAILING_STATUSES: an exact allowlist.
abbrev pub non_failing_statuses : List String
non_failing_statuses = "pass" ∷ "noop" ∷ []

unfoldable pub is_failing : String → Bool
is_failing status = not (elem status non_failing_statuses)

abbrev pub risk_green : String
risk_green = "green"

abbrev pub risk_hollow : String
risk_hollow = "hollow"

abbrev pub risk_red : String
risk_red = "red"

abbrev is_empty {ℓ} : {A : Type ℓ} → List A → Bool
is_empty [] = true
is_empty (x ∷ xs) = Bool.false

-- The recorded check statuses of a run are pairs of a check and its status.
unfoldable pub risk_band : List (String × String) → String
risk_band checks =
    let statuses = map (λ (c : String × String). c.1) checks in
    if any is_failing statuses
    then risk_red
    else if is_empty statuses || any (λ s. s == "noop") statuses
    then risk_hollow
    else risk_green
