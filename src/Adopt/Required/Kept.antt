-- ===== src/Adopt/Required/Kept.antt =====
-- Where a manifest is rewritten, and that it is rewritten nowhere else.
use borromean_rings.Base.{String, ◌≡◌, true, false, none, some, List, ◌∷◌, ◌++◌, All}
use borromean_rings.Words.{starts_with, glue}
use borromean_rings.Adopt.Required.{blanks, is_header, array_start, close_from}

-- An array that begins in a line: the text after its bracket, which closes before `rest`, and the
-- lines after the one where it closes.
abbrev pub IsArray : String → List String → String → List String → Type 0
IsArray line more rest back =
    (after : String) × (old : List String) × (array_start line ≡ some after)
    × (close_from after more ≡ some (rest, back))
    × (more ≡ old ++ back)

-- The place of the first array in a section, before any other table and any other array, and what
-- stands there after the rewrite.
abbrev pub IsReplaced : String → List String → List String → Type 0
IsReplaced rendered lines written =
    (front : List String) × (line : String) × (more : List String) × (rest : String) × (back : List
      String)
    × (lines ≡ front ++ line ∷ more)
    × (written ≡ front ++ glue (blanks line) (glue rendered rest) ∷ back)
    × All (λ l. (starts_with l "[" ≡ false) × (array_start l ≡ none)) front
    × (starts_with line "[" ≡ false)
    × IsArray line more rest back

module _ (rendered : String) where
  -- The lines up to the header of `[checks]` stay, and what follows is rewritten in its section.
  abbrev pub IsRewritten : List String → List String → Type 0
  IsRewritten lines written =
      (before : List String) × (header : String) × (section section' : List String) × (lines
        ≡ before ++ header ∷ section)
      × (written ≡ before ++ header ∷ section')
      × All (λ l. is_header l ≡ false) before
      × (is_header header ≡ true)
      × IsReplaced rendered section section'
