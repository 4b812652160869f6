-- ===== src/Adopt/Required.antt =====
-- The rewriting of the required checks in borromeanrings.toml (adopt.py: rewrite_required). The
-- expressions of the source are anchored at lines, so the text is handled as its lines, split at
-- line feeds only. `none` is the ValueError.
pub mod Steps
pub mod Lines
pub mod Again
pub mod Kept
use Prim.Native.Char.{code}
use Prim.Native.String
use borromean_rings.Base.{
  ℕ, String, Bool, true, false, ◌||◌, Option, none, some, List, [], ◌∷◌, ◌==◌, map, nat_eq,
  if◌then◌else◌,
}
use borromean_rings.Words.{cut_front, starts_with, split_char, join_with, glue}

-- `[ \t]`
abbrev pub is_blank_char : ℕ → Bool
is_blank_char c = nat_eq c 32 || nat_eq c 9

-- `[ \t]*` at the front of a text, and what follows it.
unfoldable pub blanks : String → String
blanks String.[] = ""
blanks (String.◌∷◌ c s) =
    let rest = blanks s in if is_blank_char (code c) then String.◌∷◌ c rest else ""

unfoldable pub skip_blanks : String → String
skip_blanks String.[] = ""
skip_blanks (String.◌∷◌ c s) =
    let rest = skip_blanks s in if is_blank_char (code c) then rest else String.◌∷◌ c s

abbrev pub is_nothing : Option String → Bool
is_nothing none = false
is_nothing (some rest) = skip_blanks rest == ""

-- `^\[checks\][ \t]*$`
unfoldable pub is_header : String → Bool
is_header line = is_nothing (cut_front line "[checks]")

-- `[ \t]*` and a word, where the text before was matched.
abbrev pub then_cut : Option String → String → Option String
then_cut none word = none
then_cut (some s) word = cut_front (skip_blanks s) word

-- What follows `^[ \t]*required[ \t]*=[ \t]*\[`
unfoldable pub array_start : String → Option String
array_start line = then_cut (then_cut (then_cut (some line) "required") "=") "["

-- What follows `.*?\]` in a line.
unfoldable pub after_close : String → Option String
after_close String.[] = none
after_close (String.◌∷◌ c s) =
    let rest = after_close s in if nat_eq (code c) 93 then some s else rest

abbrev pub or_later :
    Option String → List String → Option (String × List String) → Option (String × List String)
or_later none more later = later
or_later (some rest) more later = some (rest, more)

-- The rest of the line in which the array closes, and the lines after it. A line that begins with a
-- bracket ends the section.
unfoldable pub close_from : String → List String → Option (String × List String)
close_from after [] = or_later (after_close after) [] none
close_from after (line ∷ more) =
    let later = close_from line more in
    or_later (after_close after) (line ∷ more) (if starts_with line "[" then none else later)

abbrev pub push_line : String → Option (List String) → Option (List String)
push_line line none = none
push_line line (some lines) = some (line ∷ lines)

abbrev pub replaced : String → String → Option (String × List String) → Option (List String)
replaced indent rendered none = none
replaced indent rendered (some (rest, more)) = some (glue indent (glue rendered rest) ∷ more)

abbrev pub at_line :
    String → String → Option String → List String → Option (List String) → Option (List String)
at_line rendered line none more later = push_line line later
at_line rendered line (some after) more later =
    replaced (blanks line) rendered (close_from after more)

-- The section of `[checks]`, up to the next line that begins with a bracket.
unfoldable pub rewrite_section : String → List String → Option (List String)
rewrite_section rendered [] = none
rewrite_section rendered (line ∷ more) =
    let later = rewrite_section rendered more in
    if starts_with line "[" then none else at_line rendered line (array_start line) more later

unfoldable pub rewrite_lines : String → List String → Option (List String)
rewrite_lines rendered [] = none
rewrite_lines rendered (line ∷ lines) =
    let later = rewrite_lines rendered lines in
    let section = rewrite_section rendered lines in
    push_line line (if is_header line then section else later)

abbrev pub quoted : String → String
quoted check = glue "\"" (glue check "\"")

-- `", ".join(f'"{check}"' for check in new_required)`
unfoldable pub names_of : List String → String
names_of checks = join_with ", " (map quoted checks)

unfoldable pub render_required : List String → String
render_required checks = glue "required = [" (glue (names_of checks) "]")

abbrev pub joined : Option (List String) → Option String
joined none = none
joined (some lines) = some (join_with "\n" lines)

unfoldable pub rewrite_required : String → List String → Option String
rewrite_required toml_text new_required =
    joined (rewrite_lines (render_required new_required) (split_char 10 toml_text))
