-- ===== src/Trunk/Command/Depth.antt =====
-- That the search for invocations ends: how deep `sh -c` can be nested.
use borromean_rings.Base.{
  ℕ, zero, suc, ◌+◌, ◌≤◌, ◌<◌, String, ◌≡◌, refl, Bool, true, false, ◌||◌, Option, none, some, List,
  [], ◌∷◌, ◌==◌, elem, arith, Option-cases, inl, inr, if◌then◌else◌,
}
use borromean_rings.Base.Decimal.{strip}
use borromean_rings.Retry.Count.{count_chars}
use borromean_rings.Words.{split_lines, join_continued}
use borromean_rings.Trunk.{Shell, Invocation}
use borromean_rings.Trunk.Command.{
  separators, segments, basename, from_head, heredoc_tags, after_dash_c, shells, Found, look_inside,
  segment_at, segments_found, lines_found, locate,
}
use borromean_rings.Trunk.Command.Cuts.{
  size, CutsOut, AtMost, lines-AtMost, Small, smaller, segments_from-Small, after_dash_c-lt,
  IsFound, append-IsFound,
}

either-IsFound :
    (b : Bool) (x y : Found × Option String)
    → IsFound x.0
    → IsFound y.0
    → IsFound (if b then x else y).0
either-IsFound true x y f g = f
either-IsFound false x y f g = g

module _ (shell : Shell) (nested : String → Option String → Found) (n : ℕ)
    (finds : (command : String) (cwd : Option String)
      → count_chars command < n
      → IsFound (nested command cwd)) where
  look-IsFound :
      (segment : List String) (cwd : Option String) (o : Option String)
      → after_dash_c segment ≡ o
      → size segment ≤ n
      → IsFound (look_inside shell nested o cwd)
  look-IsFound segment cwd none e h = ([], refl)
  look-IsFound segment cwd (some command) e h =
      finds command cwd (omega (arith, after_dash_c-lt segment command e))

  segment-IsFound :
      (segment : List String) (cwd : Option String) (words : List String)
      → size segment ≤ n
      → IsFound (segment_at shell nested segment cwd words).0
  segment-IsFound segment cwd [] h = ([], refl)
  segment-IsFound segment cwd (word ∷ words) h =
      let head = basename word in
      let look = look_inside shell nested (after_dash_c segment) cwd in
      either-IsFound (head == "git") _ _ (_, refl)
        (either-IsFound (head == "cd" || head == "pushd") _ _ (_, refl)
          (either-IsFound (head == "popd") _ _ (_, refl)
            (either-IsFound (elem head shells) (look, cwd) (some [], cwd)
              (look-IsFound segment cwd (after_dash_c segment) refl h) (_, refl))))

  segments-IsFound :
      (parts : List (List String)) (cwd : Option String)
      → Small n parts
      → IsFound (segments_found shell nested parts cwd).0
  unfolding segments_found
  segments-IsFound [] cwd a = ([], refl)
  segments-IsFound (part ∷ parts) cwd (b, a) =
      append-IsFound (segment_at shell nested part cwd (from_head part)).0
        (segments_found shell nested parts (segment_at shell nested part cwd (from_head part)).1).0
        (segment-IsFound part cwd (from_head part) b)
        (segments-IsFound parts (segment_at shell nested part cwd (from_head part)).1 a)

  lines-IsFound :
      CutsOut shell.tokenize
      → (lines pending : List String) (cwd : Option String) → AtMost n lines
      → IsFound (lines_found shell nested lines pending cwd)
  unfolding lines_found
  lines-IsFound cut [] pending cwd a = ([], refl)
  lines-IsFound cut (line ∷ lines) (tag ∷ pending) cwd (b, a) =
      lines-IsFound cut lines (if strip line == tag then pending else tag ∷ pending) cwd a
  lines-IsFound cut (line ∷ lines) [] cwd (b, a) = elim (Option-cases (shell.tokenize line)) [
    | inl e ↦ rw (e, lines_found) (lines-IsFound cut lines [] cwd a)
    | inr (tokens, e) ↦
        rw (e, lines_found)
          (append-IsFound (segments_found shell nested (segments tokens) cwd).0
            (lines_found shell nested lines (heredoc_tags tokens)
              (segments_found shell nested (segments tokens) cwd).1)
            (segments-IsFound (segments tokens) cwd (
              smaller (0 + size tokens) n (segments tokens) (omega (arith, b, cut line tokens e))
                (segments_from-Small separators [] tokens)))
            (lines-IsFound cut lines (heredoc_tags tokens)
              (segments_found shell nested (segments tokens) cwd).1 a))
  ]

-- The search for invocations ends with an answer: nesting as deep as the command has characters is
-- enough, for a lexer whose tokens are together no longer than their line.
pub locate-finds :
    (shell : Shell) (fuel : ℕ) (command : String) (cwd : Option String)
    → CutsOut shell.tokenize
    → count_chars command < fuel
    → (found : List Invocation) × (locate shell fuel command cwd ≡ some found)
unfolding locate
locate-finds shell zero command cwd cut h = elim h [ ]
locate-finds shell (suc fuel) command cwd cut h =
    lines-IsFound shell (locate shell fuel) (count_chars command)
      (λ inner at lt. locate-finds shell fuel inner at cut (omega (arith, lt, h))) cut
      (split_lines (join_continued command)) [] cwd (lines-AtMost command)
