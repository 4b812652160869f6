-- ===== src/Examples/Adopt.antt =====
-- A small manifest whose checks are rewritten.
use borromean_rings.Base.{String, ◌≡◌, refl, some, [], ◌∷◌, All}
use borromean_rings.Words.{cut_front, starts_with, split_char, join_with, has_char}
use borromean_rings.Adopt.Required.{
  blanks, skip_blanks, is_header, array_start, after_close, close_from, rewrite_section,
  rewrite_lines, names_of, render_required, rewrite_required,
}
use borromean_rings.Adopt.Required.Again.{IsCheck, rewrite_required-again}

abbrev manifest : String
manifest = "[checks]\n required = [\n \"a\"] # all\n[test]\nrequired = []\n"

abbrev rewritten : String
rewritten = "[checks]\n required = [\"b\"] # all\n[test]\nrequired = []\n"

rewritten_test : rewrite_required manifest ("b" ∷ []) ≡ some rewritten
unfolding rewrite_required rewrite_lines rewrite_section is_header array_start after_close
    close_from blanks skip_blanks cut_front starts_with split_char join_with names_of
    render_required
rewritten_test = refl

IsCheck-names : All IsCheck ("b" ∷ [])
unfolding has_char
IsCheck-names = ((refl, refl), tt)

rewrite_required-again_example :
    rewrite_required rewritten ("c" ∷ []) ≡ rewrite_required manifest ("c" ∷ [])
rewrite_required-again_example =
    rewrite_required-again manifest rewritten ("b" ∷ []) ("c" ∷ []) IsCheck-names rewritten_test
