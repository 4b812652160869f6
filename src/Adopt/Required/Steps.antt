-- ===== src/Adopt/Required/Steps.antt =====
-- The steps of the search for the array, one line each.
use borromean_rings.Base.{
  String, ◌≡◌, refl, sym, true, false, Option, none, some, List, [], ◌∷◌, some-inj,
}
use borromean_rings.Words.{starts_with}
use borromean_rings.Adopt.Required.{
  blanks, is_header, array_start, after_close, close_from, push_line, replaced, rewrite_section,
  rewrite_lines,
}

pub in_table :
    (rendered line : String) (more : List String)
    → starts_with line "[" ≡ true
    → rewrite_section rendered (line ∷ more) ≡ none
unfolding rewrite_section
in_table rendered line more e = rw e refl

pub before_array :
    (rendered line : String) (more : List String)
    → starts_with line "[" ≡ false
    → array_start line ≡ none
    → rewrite_section rendered (line ∷ more) ≡ push_line line (rewrite_section rendered more)
unfolding rewrite_section
before_array rendered line more e f = rw (e, f) refl

pub at_array :
    (rendered line after : String) (more : List String)
    → starts_with line "[" ≡ false
    → array_start line ≡ some after
    → rewrite_section rendered (line ∷ more)
      ≡ replaced (blanks line) rendered (close_from after more)
unfolding rewrite_section
at_array rendered line after more e f = rw (e, f) refl

pub pushed_line :
    (line : String) (found : Option (List String)) (lines : List String)
    → push_line line found ≡ some lines
    → (rest : List String) × (found ≡ some rest) × (lines ≡ line ∷ rest)
pushed_line line none lines h = cc
pushed_line line (some rest) lines h = (rest, refl, sym (some-inj (line ∷ rest) lines h))

pub at_header :
    (rendered line : String) (lines : List String)
    → is_header line ≡ true
    → rewrite_lines rendered (line ∷ lines) ≡ push_line line (rewrite_section rendered lines)
unfolding rewrite_lines
at_header rendered line lines e = rw e refl

pub before_header :
    (rendered line : String) (lines : List String)
    → is_header line ≡ false
    → rewrite_lines rendered (line ∷ lines) ≡ push_line line (rewrite_lines rendered lines)
unfolding rewrite_lines
before_header rendered line lines e = rw e refl

pub close_now :
    (after r : String) (more : List String)
    → after_close after ≡ some r
    → close_from after more ≡ some (r, more)
unfolding close_from
close_now after r [] e = rw e refl
close_now after r (line ∷ more) e = rw e refl
