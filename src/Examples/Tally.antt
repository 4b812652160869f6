-- ===== src/Examples/Tally.antt =====
-- Tallies of small records.
use borromean_rings.Base.{
  false, ℕ, ◌≡◌, refl, Option, none, some, List, [], ◌∷◌, nat_eq, if◌then◌else◌,
}
use borromean_rings.Base.Text.{is_break, is_space, is_blank, splitlines, split_from}
use borromean_rings.Json.{Value, str, object, array, no_items, member, no_members}
use borromean_rings.Gate.History.{Codec}
use borromean_rings.Gate.Tally.{
  count_rewrite, SelfReportTally, count_line, count_lines, count_statuses, read_rewrite_tally,
}

-- A codec of one-letter records: `h` is honoured, `z` has another status, `l` a list for one.
abbrev loads : List ℕ → Option Value
loads [] = none
loads (c ∷ line) =
    if nat_eq c 104
    then some (object (member "status" (str "honoured") no_members))
    else if nat_eq c 122
    then some (object (member "status" (str "z") no_members))
    else if nat_eq c 108
    then some (object (member "status" (array no_items) no_members))
    else none

abbrev letters : Codec
letters = record { dumps = λ v. []; loads = loads; repr = λ v. "?"; raises = λ line. false }

-- `h`, `z`, a blank line, a damaged one, `h`
abbrev raw : List ℕ
raw = 104 ∷ 10 ∷ 122 ∷ 10 ∷ 10 ∷ 63 ∷ 10 ∷ 104 ∷ 10 ∷ []

raises_test : read_rewrite_tally letters (some (104 ∷ 10 ∷ 108 ∷ 10 ∷ [])) ≡ none
unfolding read_rewrite_tally count_statuses count_lines count_line count_rewrite splitlines
    split_from is_break is_blank is_space
raises_test = refl

abbrev three_unknown : SelfReportTally
three_unknown = record {
  present = 0;
  absent = 0;
  malformed = 0;
  graded = 0;
  exempt = 0;
  unknown = 3;
}
