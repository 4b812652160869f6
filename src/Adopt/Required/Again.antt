-- ===== src/Adopt/Required/Again.antt =====
-- That a rewritten manifest is found again where it was rewritten, and changes nowhere else.
use Prim.Native.Char.{code}
use borromean_rings.Base.{
  ℕ, String, ◌≡◌, refl, sym, ◌∙◌, ap, false, Option, none, some, List, [], ◌∷◌, All, arith,
  Bool-cases, Option-cases, inl, inr, some-inj,
}
use borromean_rings.Words.Glued.{glue_assoc}
use borromean_rings.Words.{cut_front, starts_with, has_char, split_char, join_with, glue}
use borromean_rings.Adopt.Required.Steps.{
  close_now, in_table, before_array, at_array, pushed_line, at_header, before_header,
}
use borromean_rings.Adopt.Required.Lines.{
  IsLine, FirstIsLine-All, split_char-FirstIsLine, split_char-join_with, glue-absent,
  RewrittenAreLines, rewrite_lines-RewrittenAreLines,
}
use borromean_rings.Base.{subst}
use borromean_rings.Adopt.Required.{
  is_blank_char, blanks, skip_blanks, is_header, array_start, after_close, close_from, push_line,
  replaced, rewrite_section, rewrite_lines, quoted, names_of, render_required, joined,
  rewrite_required,
}

-- The array that was written is found at its line.
blanks_skipped : (line s : String) → skip_blanks (glue (blanks line) s) ≡ skip_blanks s
unfolding blanks skip_blanks
blanks_skipped String.[] s = refl
blanks_skipped (String.◌∷◌ c line) s = elim (Bool-cases (is_blank_char (code c))) [
  | inl e ↦ rw (e, glue, e) (blanks_skipped line s)
  | inr e ↦ rw e refl
]

blanks_again : (line s : String) → blanks s ≡ "" → blanks (glue (blanks line) s) ≡ blanks line
unfolding blanks
blanks_again String.[] s h = h
blanks_again (String.◌∷◌ c line) s h = elim (Bool-cases (is_blank_char (code c))) [
  | inl e ↦ rw (e, glue, e) (ap (String.◌∷◌ c) (blanks_again line s h))
  | inr e ↦ rw e h
]

-- The line that is written, and where its array stands.
abbrev new_line : String → String → String → String
new_line indent names rest = glue indent (glue (glue "required = [" (glue names "]")) rest)

start_found :
    (line names rest : String)
    → array_start (new_line (blanks line) names rest) ≡ some (glue names (String.◌∷◌ "]" rest))
unfolding array_start skip_blanks cut_front
start_found line names rest = rw (blanks_skipped line) (ap some (glue_assoc names "]" rest))

indent_found : (line names rest : String) → blanks (new_line (blanks line) names rest) ≡ blanks line
unfolding blanks
indent_found line names rest = blanks_again line _ refl

close_found :
    (names rest : String)
    → has_char 93 names ≡ false
    → after_close (glue names (String.◌∷◌ "]" rest)) ≡ some rest
unfolding has_char after_close
close_found String.[] rest h = refl
close_found (String.◌∷◌ c s) rest h = ground (arith, close_found s rest)

-- The new line is no table.
no_bracket :
    (line s : String) → starts_with s "[" ≡ false → starts_with (glue (blanks line) s) "[" ≡ false
unfolding blanks starts_with cut_front
no_bracket String.[] s h = h
no_bracket (String.◌∷◌ c line) s h = elim (Bool-cases (is_blank_char (code c))) [
  | inl e ↦ rw e (ground (arith, e))
  | inr e ↦ rw e h
]

not_table : (line names rest : String) → starts_with (new_line (blanks line) names rest) "[" ≡ false
unfolding starts_with cut_front
not_table line names rest = no_bracket line _ refl

module _ (a b : List String) (closed : has_char 93 (names_of a) ≡ false) where
  abbrev first : String
  first = render_required a

  abbrev second : String
  second = render_required b

  found_again :
      (line rest : String) (more : List String)
      → rewrite_section second (glue (blanks line) (glue first rest) ∷ more)
        ≡ replaced (blanks line) second (some (rest, more))
  unfolding render_required
  found_again line rest more =
      let names = names_of a in
      at_array second (new_line (blanks line) names rest) (glue names (String.◌∷◌ "]" rest)) more
        (not_table line names rest) (start_found line names rest)
      ∙ rw
          (
            indent_found line names rest,
            close_now (glue names (String.◌∷◌ "]" rest)) rest more (close_found names rest closed),
          )
          refl

  array-again :
      (line : String) (found : Option (String × List String)) (lines : List String)
      → replaced (blanks line) first found ≡ some lines
      → rewrite_section second lines ≡ replaced (blanks line) second found
  array-again line none lines h = cc
  array-again line (some (rest, more)) lines h =
      ap (rewrite_section second) (sym (some-inj _ lines h)) ∙ found_again line rest more

  section-again :
      (lines again : List String)
      → rewrite_section first lines ≡ some again
      → rewrite_section second again ≡ rewrite_section second lines
  unfolding rewrite_section
  section-again [] again h = cc
  section-again (line ∷ more) again h = elim (Bool-cases (starts_with line "[")) [
    | inl e ↦ cc (in_table first line more e, h)
    | inr e ↦ elim (Option-cases (array_start line)) [
      | inl f ↦
          let (rest, g, q) =
            pushed_line line (rewrite_section first more) again
              (sym (before_array first line more e f) ∙ h) in
          ap (rewrite_section second) q
          ∙ before_array second line rest e f
          ∙ ap (push_line line) (section-again more rest g)
          ∙ sym (before_array second line more e f)
      | inr (after, f) ↦
          array-again line (close_from after more) again
            (sym (at_array first line after more e f) ∙ h)
          ∙ sym (at_array second line after more e f)
    ]
  ]

  lines-again :
      (lines again : List String)
      → rewrite_lines first lines ≡ some again
      → rewrite_lines second again ≡ rewrite_lines second lines
  unfolding rewrite_lines
  lines-again [] again h = cc
  lines-again (line ∷ lines) again h = elim (Bool-cases (is_header line)) [
    | inl e ↦
        let (rest, g, q) =
          pushed_line line (rewrite_section first lines) again
            (sym (at_header first line lines e) ∙ h) in
        ap (rewrite_lines second) q
        ∙ at_header second line rest e
        ∙ ap (push_line line) (section-again lines rest g)
        ∙ sym (at_header second line lines e)
    | inr e ↦
        let (rest, g, q) =
          pushed_line line (rewrite_lines first lines) again
            (sym (before_header first line lines e) ∙ h) in
        ap (rewrite_lines second) q
        ∙ before_header second line rest e
        ∙ ap (push_line line) (lines-again lines rest g)
        ∙ sym (before_header second line lines e)
  ]

-- A name of a check that stands in an array as it is: no closing bracket, no line feed.
abbrev pub IsCheck : String → Type 0
IsCheck check = (has_char 93 check ≡ false) × IsLine check

-- A character that no check has, and no quote, comma or space is, stands nowhere in the array.
names-absent :
    (c : ℕ) (checks : List String)
    → has_char c "\"" ≡ false
    → has_char c ", " ≡ false
    → All (λ check. has_char c check ≡ false) checks
    → has_char c (names_of checks) ≡ false
unfolding names_of join_with has_char
names-absent c [] q r h = refl
names-absent c (check ∷ []) q r h =
    glue-absent c "\"" (glue check "\"") q (glue-absent c check "\"" h.0 q)
names-absent c (check ∷ next ∷ checks) q r h =
    glue-absent c (quoted check) (glue ", " (names_of (next ∷ checks)))
      (glue-absent c "\"" (glue check "\"") q (glue-absent c check "\"" h.0 q))
      (glue-absent c ", " (names_of (next ∷ checks)) r (names-absent c (next ∷ checks) q r h.1))

without_bracket :
    (checks : List String) → All IsCheck checks → All (λ check. has_char 93 check ≡ false) checks
without_bracket [] h = tt
without_bracket (check ∷ checks) h = (h.0.0, without_bracket checks h.1)

without_feed : (checks : List String) → All IsCheck checks → All IsLine checks
without_feed [] h = tt
without_feed (check ∷ checks) h = (h.0.1, without_feed checks h.1)

rendered-IsLine : (checks : List String) → All IsCheck checks → IsLine (render_required checks)
unfolding render_required has_char
rendered-IsLine checks h = glue-absent 10 "required = [" (glue (names_of checks) "]") refl (
    glue-absent 10 (names_of checks) "]" (names-absent 10 checks refl refl (without_feed checks h))
      refl)

joined_lines :
    (o : Option (List String)) (written : String)
    → joined o ≡ some written
    → (lines : List String) × (o ≡ some lines) × (join_with "\n" lines ≡ written)
joined_lines none written h = cc
joined_lines (some lines) written h = (lines, refl, some-inj (join_with "\n" lines) written h)

lines_back :
    (o : Option (List String)) (lines : List String)
    → o ≡ some lines
    → RewrittenAreLines o
    → split_char 10 (join_with "\n" lines) ≡ lines
lines_back o lines e h = split_char-join_with lines (subst RewrittenAreLines e h)

-- The lines of a manifest that was rewritten.
pub rewritten_lines :
    (toml_text written : String) (checks : List String)
    → All IsCheck checks
    → rewrite_required toml_text checks ≡ some written
    → (lines : List String) × (rewrite_lines (render_required checks) (split_char 10 toml_text)
        ≡ some lines)
      × (lines ≡ split_char 10 written)
unfolding rewrite_required
rewritten_lines toml_text written checks h e =
    let before = split_char 10 toml_text in
    let found = rewrite_lines (render_required checks) before in
    let (lines, f, g) = joined_lines found written e in
    let are_lines =
      rewrite_lines-RewrittenAreLines (render_required checks) (rendered-IsLine checks h) before
        (FirstIsLine-All before (split_char-FirstIsLine toml_text)) in
    (lines, f, sym (lines_back found lines f are_lines) ∙ ap (split_char 10) g)

-- The list of checks that was written last stands alone: where a manifest was rewritten, rewriting
-- it again, for any checks, gives what rewriting the first manifest gives, a ValueError included.
-- No name of a check that was written first has a closing bracket or a line feed in it.
pub rewrite_required-again :
    (toml_text written : String) (a b : List String)
    → All IsCheck a
    → rewrite_required toml_text a ≡ some written
    → rewrite_required written b ≡ rewrite_required toml_text b
unfolding rewrite_required has_char
rewrite_required-again toml_text written a b h e =
    let (again, f, g) = rewritten_lines toml_text written a h e in
    let closed = names-absent 93 a refl refl (without_bracket a h) in
    ap (λ ls. joined (rewrite_lines (render_required b) ls)) (sym g)
    ∙ ap joined (lines-again a b closed (split_char 10 toml_text) again f)
