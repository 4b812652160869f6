-- ===== src/Gate/Label.antt =====
-- The text that the gate prints for one check row: `status_label` (verdict.py). `str.upper` is a
-- parameter; the outer `none` is the IndexError of an empty `splitlines()`.
pub mod FirstLine
pub mod Bounded
use borromean_rings.Base.{ℕ, String, Option, none, some, List, [], ◌∷◌, ◌==◌, ltb, if◌then◌else◌}
use borromean_rings.Base.Decimal.{strip}
use borromean_rings.Json.{Value, str}
use borromean_rings.StateHome.{take_chars}
use borromean_rings.Retry.Count.{count_chars}
use borromean_rings.Words.{split_lines, glue}

abbrev pub summary_max_chars : ℕ
summary_max_chars = 72

-- `lines[0].strip()`
abbrev pub strip_first : List String → Option String
strip_first [] = none
strip_first (line ∷ lines) = some (strip line)

abbrev pub first_of : String → Option String
first_of text = if text == "" then some "" else strip_first (split_lines text)

unfoldable pub first_line : String → Option String
first_line summary = first_of (strip summary)

abbrev pub bounded : String → String
bounded line =
    if ltb summary_max_chars (count_chars line) then glue (take_chars 69 line) "..." else line

abbrev pub with_line : String → Option String → Option String
with_line label none = none
with_line label (some line) =
    if line == "" then some label else some (glue label (glue " (" (glue (bounded line) ")")))

unfoldable pub status_label : (String → String) → String → Option Value → Option String
unfolding first_line
status_label upper status (some (str summary)) = with_line (upper status) (first_line summary)
status_label upper status summary = some (upper status)
