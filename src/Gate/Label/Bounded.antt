-- ===== src/Gate/Label/Bounded.antt =====
-- That a row of the gate stays one bounded line, whatever a check wrote as its summary.
use Prim.Native.Char.{Char}
use borromean_rings.Base.{
  ℕ, zero, suc, ◌+◌, ◌≤◌, String, ◌≡◌, ◌≢◌, refl, ap, Bool, true, false, Option, none, some, ltb,
  arith, Bool-cases, inl, inr,
}
use borromean_rings.Base.Text.{is_break}
use borromean_rings.Json.{Value, str, real, object, array, int, bool, null}
use borromean_rings.StateHome.{take_chars}
use borromean_rings.Retry.Count.{count_chars}
use borromean_rings.Generator.Decisions.{take-short}
use borromean_rings.Words.{glue}
use borromean_rings.Gate.Label.FirstLine.{
  is_visible, has_break, Begins, IsFront, IsPart, IsPart-front, first_line-shown, first_line-blank,
  not_empty, not_equal_empty,
}
use borromean_rings.Gate.Label.{summary_max_chars, first_line, bounded, with_line, status_label}

-- What a row can show of a summary.
abbrev pub IsShort : String → Type 0
IsShort line = (line ≢ "") × (has_break line ≡ false) × (count_chars line ≤ summary_max_chars)

-- The bound on what is shown of a line.
dotted : (s : String) → count_chars (glue s "...") ≡ count_chars s + 3
dotted String.[] = refl
dotted (String.◌∷◌ c s) = omega (arith, dotted s)

dotted_one_line : (s : String) → has_break s ≡ false → has_break (glue s "...") ≡ false
unfolding is_break
dotted_one_line String.[] h = refl
dotted_one_line (String.◌∷◌ c s) h = ground (arith, dotted_one_line s)

take-one_line : (n : ℕ) (s : String) → has_break s ≡ false → has_break (take_chars n s) ≡ false
take-one_line zero s h = refl
take-one_line (suc n) String.[] h = refl
take-one_line (suc n) (String.◌∷◌ c s) h = ground (arith, take-one_line n s)

take-IsFront : (n : ℕ) (s : String) → IsFront (take_chars n s) s
take-IsFront zero s = (s, refl)
take-IsFront (suc n) String.[] = ("", refl)
take-IsFront (suc n) (String.◌∷◌ c s) =
    let (after, e) = take-IsFront n s in (after, ap (String.◌∷◌ c) e)

take-glue :
    (n : ℕ) (s t : String)
    → n ≤ count_chars s
    → take_chars n (glue (take_chars n s) t) ≡ take_chars n s
take-glue zero s t h = refl
take-glue (suc n) String.[] t h = absurd (omega (arith, h))
take-glue (suc n) (String.◌∷◌ c s) t h = ap (String.◌∷◌ c) (take-glue n s t (omega (arith, h)))

-- What a label shows of a line begins as the line does.
bounded-IsFront : (line : String) → IsFront (take_chars 69 (bounded line)) line
bounded-IsFront line = elim (Bool-cases (ltb summary_max_chars (count_chars line))) [
  | inl e ↦ rw (e, take-glue 69 line "..." (ground (arith, e))) (take-IsFront 69 line)
  | inr e ↦ rw e (take-IsFront 69 line)
]

bounded-IsShort :
    (c : Char) (s : String)
    → has_break (String.◌∷◌ c s) ≡ false
    → IsShort (bounded (String.◌∷◌ c s))
bounded-IsShort c s h = elim (Bool-cases (ltb summary_max_chars (count_chars (String.◌∷◌ c s)))) [
  | inl e ↦
      let cut = take_chars 69 (String.◌∷◌ c s) in
      let few = take-short 69 (String.◌∷◌ c s) in
      let sum = dotted cut in
      rw e (
        not_empty c (glue (take_chars 68 s) "..."),
        dotted_one_line cut (take-one_line 69 (String.◌∷◌ c s) h),
        omega (arith, few, sum),
      )
  | inr e ↦ rw e (not_empty c s, h, ground (arith, e))
]

-- The summary of a receipt that a row shows: a text that is not blank.
abbrev pub is_reported : Option Value → Bool
is_reported (some (str summary)) = is_visible summary
is_reported summary = false

abbrev pub text_of : Option Value → String
text_of (some (str summary)) = summary
text_of summary = ""

-- A label: the status alone, or the status and a short line that begins as a part of the summary.
abbrev pub IsLabel : Bool → String → String → Option String → Type 0
IsLabel false summary status shown = shown ≡ some status
IsLabel true summary status shown =
    (line : String) × (shown ≡ some (glue status (glue " (" (glue line ")"))))
    × IsShort line
    × IsPart (take_chars 69 line) summary

shown_line :
    (status summary line : String)
    → Begins line
    → has_break line ≡ false
    → IsPart line summary
    → IsLabel true summary status (with_line status (some line))
shown_line status summary line (c, r, q, e) h part =
    let short : IsShort (bounded line) = rw q (bounded-IsShort c r (rw q at h)) in
    (
      bounded line,
      rw (not_equal_empty line (rw q (not_empty c r))) refl,
      short,
      IsPart-front (take_chars 69 (bounded line)) line summary (bounded-IsFront line) part,
    )

text-IsLabel :
    (status summary : String)
    → IsLabel (is_visible summary) summary status (with_line status (first_line summary))
text-IsLabel status summary = elim (Bool-cases (is_visible summary)) [
  | inl e ↦
      let (line, f, b, g, part) = first_line-shown summary e in
      rw (e, f) (shown_line status summary line b g part)
  | inr e ↦ rw (e, first_line-blank summary e) refl
]

-- A row of the gate always gets a label. It is the status in upper case, alone if the receipt's
-- summary is no text or is blank, and else followed by one line in parentheses that is not empty,
-- has no line break and at most 72 characters, and whose first 69 stand together in the summary.
pub status_label-IsLabel :
    (upper : String → String) (status : String) (summary : Option Value)
    → IsLabel
        (is_reported summary)
        (text_of summary)
        (upper status)
        (status_label upper status summary)
unfolding status_label
status_label-IsLabel upper status none = refl
status_label-IsLabel upper status (some (str summary)) = text-IsLabel (upper status) summary
status_label-IsLabel upper status (some (real s)) = refl
status_label-IsLabel upper status (some (object fields)) = refl
status_label-IsLabel upper status (some (array items)) = refl
status_label-IsLabel upper status (some (int n)) = refl
status_label-IsLabel upper status (some (bool b)) = refl
status_label-IsLabel upper status (some null) = refl
