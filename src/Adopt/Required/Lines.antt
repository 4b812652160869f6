-- ===== src/Adopt/Required/Lines.antt =====
-- That splitting a text into lines and joining the lines are inverse, and that a rewritten list of
-- lines is one of lines.
use Prim.Native.Char.{Char, code}
use borromean_rings.Base.{
  ℕ, String, ◌≡◌, refl, sym, ◌∙◌, ap, Bool, true, false, ◌||◌, Option, none, some, List, [], ◌∷◌,
  nat_eq, All, arith, Bool-cases, Option-cases, inl, inr, some-inj, if◌then◌else◌,
}
use borromean_rings.Words.Glued.{has_char-glue}
use borromean_rings.Words.{cut_front, starts_with, has_char, split_char, join_with, glue, push_char}
use borromean_rings.Adopt.Required.{
  is_blank_char, blanks, skip_blanks, array_start, then_cut, after_close, or_later, close_from,
  push_line, replaced, at_line, rewrite_section, is_header, rewrite_lines,
}

abbrev pub IsLine : String → Type 0
IsLine s = has_char 10 s ≡ false

-- Splitting gives lines, at least one.
abbrev pub FirstIsLine : List String → Type 0
FirstIsLine [] = ⊥
FirstIsLine (line ∷ lines) = All IsLine (line ∷ lines)

pushed-FirstIsLine :
    (c : Char) (lines : List String)
    → nat_eq (code c) 10 ≡ false
    → FirstIsLine lines
    → FirstIsLine (push_char c lines)
unfolding has_char
pushed-FirstIsLine c [] e h = elim h [ ]
pushed-FirstIsLine c (line ∷ lines) e h = (ground (arith, h.0), h.1)

pub FirstIsLine-All : (lines : List String) → FirstIsLine lines → All IsLine lines
FirstIsLine-All [] h = tt
FirstIsLine-All (line ∷ lines) h = h

pub split_char-FirstIsLine : (s : String) → FirstIsLine (split_char 10 s)
unfolding split_char has_char
split_char-FirstIsLine String.[] = (refl, tt)
split_char-FirstIsLine (String.◌∷◌ c s) = elim (Bool-cases (nat_eq (code c) 10)) [
  | inl e ↦ rw e (refl, FirstIsLine-All (split_char 10 s) (split_char-FirstIsLine s))
  | inr e ↦ rw e (pushed-FirstIsLine c (split_char 10 s) e (split_char-FirstIsLine s))
]

parts_false : (a b : Bool) → (a || b) ≡ false → (a ≡ false) × (b ≡ false)
parts_false true b h = cc
parts_false false b h = (refl, h)

IsLine-parts :
    (c : Char) (s : String) → IsLine (String.◌∷◌ c s) → (nat_eq (code c) 10 ≡ false) × IsLine s
unfolding has_char
IsLine-parts c s h = parts_false (nat_eq (code c) 10) (has_char 10 s) h

within_line :
    (c : Char) (s : String)
    → nat_eq (code c) 10 ≡ false
    → split_char 10 (String.◌∷◌ c s) ≡ push_char c (split_char 10 s)
unfolding split_char
within_line c s e = rw e refl

at_feed : (s : String) → split_char 10 (glue "\n" s) ≡ "" ∷ split_char 10 s
unfolding split_char
at_feed s = refl

last_line : (s : String) → IsLine s → split_char 10 s ≡ s ∷ []
unfolding split_char
last_line String.[] h = refl
last_line (String.◌∷◌ c s) h =
    let (e, f) = IsLine-parts c s h in within_line c s e ∙ ap (push_char c) (last_line s f)

next_line : (s t : String) → IsLine s → split_char 10 (glue s (glue "\n" t)) ≡ s ∷ split_char 10 t
next_line String.[] t h = at_feed t
next_line (String.◌∷◌ c s) t h =
    let (e, f) = IsLine-parts c s h in
    within_line c (glue s (glue "\n" t)) e ∙ ap (push_char c) (next_line s t f)

pub split_char-join_with :
    (lines : List String) → FirstIsLine lines → split_char 10 (join_with "\n" lines) ≡ lines
unfolding join_with
split_char-join_with [] h = elim h [ ]
split_char-join_with (line ∷ []) h = last_line line h.0
split_char-join_with (line ∷ next ∷ lines) h =
    next_line line (join_with "\n" (next ∷ lines)) h.0
    ∙ ap (◌∷◌ line) (split_char-join_with (next ∷ lines) h.1)

-- What is cut off the front of a line leaves a line.
cut-IsLine : (s p r : String) → cut_front s p ≡ some r → IsLine s → IsLine r
unfolding cut_front
cut-IsLine s String.[] r h i = rw (sym (some-inj s r h)) i
cut-IsLine String.[] (String.◌∷◌ d p) r h i = cc
cut-IsLine (String.◌∷◌ c s) (String.◌∷◌ d p) r h i = elim (Bool-cases (nat_eq (code c) (code d))) [
  | inl e ↦ cut-IsLine s p r (rw e at h) (IsLine-parts c s i).1
  | inr e ↦ cc (rw e at h)
]

skip-IsLine : (s : String) → IsLine s → IsLine (skip_blanks s)
unfolding skip_blanks
skip-IsLine String.[] h = h
skip-IsLine (String.◌∷◌ c s) h = elim (Bool-cases (is_blank_char (code c))) [
  | inl e ↦ rw e (skip-IsLine s (IsLine-parts c s h).1)
  | inr e ↦ rw e h
]

abbrev FoundIsLine : Option String → Type 0
FoundIsLine none = Unit
FoundIsLine (some s) = IsLine s

cut-FoundIsLine : (s p : String) → IsLine s → FoundIsLine (cut_front s p)
cut-FoundIsLine s p h = elim (Option-cases (cut_front s p)) [
  | inl e ↦ rw e tt
  | inr (r, e) ↦ rw e (cut-IsLine s p r e h)
]

then_cut-FoundIsLine : (o : Option String) (p : String) → FoundIsLine o → FoundIsLine (then_cut o p)
then_cut-FoundIsLine none p h = tt
then_cut-FoundIsLine (some s) p h = cut-FoundIsLine (skip_blanks s) p (skip-IsLine s h)

start-FoundIsLine : (line : String) → IsLine line → FoundIsLine (array_start line)
unfolding array_start
start-FoundIsLine line h =
    let one = then_cut-FoundIsLine (some line) "required" h in
    let two = then_cut-FoundIsLine (then_cut (some line) "required") "=" one in
    then_cut-FoundIsLine (then_cut (then_cut (some line) "required") "=") "[" two

close-FoundIsLine : (s : String) → IsLine s → FoundIsLine (after_close s)
unfolding after_close
close-FoundIsLine String.[] h = tt
close-FoundIsLine (String.◌∷◌ c s) h =
    let (e, f) = IsLine-parts c s h in
    elim (Bool-cases (nat_eq (code c) 93)) [ inl g ↦ rw g f | inr g ↦ rw g (close-FoundIsLine s f) ]

abbrev pub AreLines : Option (String × List String) → Type 0
AreLines none = Unit
AreLines (some (rest, more)) = All IsLine (rest ∷ more)

or_later-AreLines :
    (o : Option String) (more : List String) (later : Option (String × List String))
    → FoundIsLine o
    → All IsLine more
    → AreLines later
    → AreLines (or_later o more later)
or_later-AreLines none more later h i j = j
or_later-AreLines (some s) more later h i j = (h, i)

if_table :
    (b : Bool) (later : Option (String × List String))
    → AreLines later
    → AreLines (if b then none else later)
if_table true later h = tt
if_table false later h = h

pub close_from-AreLines :
    (after : String) (more : List String)
    → IsLine after
    → All IsLine more
    → AreLines (close_from after more)
unfolding close_from
close_from-AreLines after [] h i =
    or_later-AreLines (after_close after) [] none (close-FoundIsLine after h) tt tt
close_from-AreLines after (line ∷ more) h i =
    or_later-AreLines (after_close after) (line ∷ more)
      (if starts_with line "[" then none else close_from line more) (close-FoundIsLine after h) i
      (if_table (starts_with line "[") (close_from line more)
        (close_from-AreLines line more i.0 i.1))

-- What a rewrite gives are lines, at least one.
abbrev pub RewrittenAreLines : Option (List String) → Type 0
RewrittenAreLines none = Unit
RewrittenAreLines (some lines) = FirstIsLine lines

push-RewrittenAreLines :
    (line : String) (o : Option (List String))
    → IsLine line
    → RewrittenAreLines o
    → RewrittenAreLines (push_line line o)
push-RewrittenAreLines line none h i = tt
push-RewrittenAreLines line (some lines) h i = (h, FirstIsLine-All lines i)

pub glue-absent :
    (c : ℕ) (s t : String)
    → has_char c s ≡ false
    → has_char c t ≡ false
    → has_char c (glue s t) ≡ false
glue-absent c s t h i = rw (has_char-glue c s t, h) i

glue-IsLine : (s t : String) → IsLine s → IsLine t → IsLine (glue s t)
glue-IsLine s t h i = glue-absent 10 s t h i

blanks-IsLine : (s : String) → IsLine (blanks s)
unfolding blanks has_char
blanks-IsLine String.[] = refl
blanks-IsLine (String.◌∷◌ c s) = elim (Bool-cases (is_blank_char (code c))) [
  | inl e ↦ rw e (ground (arith, e, blanks-IsLine s))
  | inr e ↦ rw e refl
]

module _ (rendered : String) (whole : IsLine rendered) where
  replaced-RewrittenAreLines :
      (line : String) (o : Option (String × List String))
      → AreLines o
      → RewrittenAreLines (replaced (blanks line) rendered o)
  replaced-RewrittenAreLines line none h = tt
  replaced-RewrittenAreLines line (some (rest, more)) h = (
    glue-IsLine (blanks line) (glue rendered rest) (blanks-IsLine line)
        (glue-IsLine rendered rest whole h.0),
    h.1,
  )

  at_line-RewrittenAreLines :
      (line : String) (o : Option String) (more : List String) (later : Option (List String))
      → IsLine line
      → FoundIsLine o
      → All IsLine more
      → RewrittenAreLines later
      → RewrittenAreLines (at_line rendered line o more later)
  at_line-RewrittenAreLines line none more later h f i j = push-RewrittenAreLines line later h j
  at_line-RewrittenAreLines line (some after) more later h f i j =
      replaced-RewrittenAreLines line (close_from after more) (close_from-AreLines after more f i)

  choice-RewrittenAreLines :
      (b : Bool) (o p : Option (List String))
      → RewrittenAreLines o
      → RewrittenAreLines p
      → RewrittenAreLines (if b then o else p)
  choice-RewrittenAreLines true o p h i = h
  choice-RewrittenAreLines false o p h i = i

  section-RewrittenAreLines :
      (lines : List String) → All IsLine lines → RewrittenAreLines (rewrite_section rendered lines)
  unfolding rewrite_section
  section-RewrittenAreLines [] h = tt
  section-RewrittenAreLines (line ∷ more) h =
      let later = rewrite_section rendered more in
      choice-RewrittenAreLines (starts_with line "[") none
        (at_line rendered line (array_start line) more later) tt
        (at_line-RewrittenAreLines line (array_start line) more later h.0
          (start-FoundIsLine line h.0) h.1 (section-RewrittenAreLines more h.1))

  pub rewrite_lines-RewrittenAreLines :
      (lines : List String) → All IsLine lines → RewrittenAreLines (rewrite_lines rendered lines)
  unfolding rewrite_lines
  rewrite_lines-RewrittenAreLines [] h = tt
  rewrite_lines-RewrittenAreLines (line ∷ lines) h = push-RewrittenAreLines line _ h.0 (
      choice-RewrittenAreLines (is_header line) (rewrite_section rendered lines)
        (rewrite_lines rendered lines) (section-RewrittenAreLines lines h.1)
        (rewrite_lines-RewrittenAreLines lines h.1))
