-- ===== src/Identity/Command/Depth.antt =====
-- That the search for the invocations of a command ends.
use borromean_rings.Base.{
  ℕ, zero, suc, ◌+◌, ◌≤◌, ◌<◌, String, ◌≡◌, refl, Bool, true, false, Option, none, some, List, [],
  ◌∷◌, ◌==◌, elem, arith, if◌then◌else◌,
}
use borromean_rings.Retry.Count.{count_chars}
use borromean_rings.Words.{join_continued, split_lines}
use borromean_rings.Trunk.Command.{after_dash_c}
use borromean_rings.Trunk.Command.Cuts.{
  size, CutsOut, AtMost, lines-AtMost, Small, smaller, segments_from-Small, after_dash_c-lt,
  IsFound, append-IsFound,
}
use borromean_rings.Identity.Command.{
  Lexer, separators, shells, split_segments, head_name, from_head, or_command, logical_lines, Found,
  look_inside, in_segment, invocations_in_line, in_tokens, invocations_in_lines, invocations_at,
}

either-IsFound : (b : Bool) (x y : Found) → IsFound x → IsFound y → IsFound (if b then x else y)
either-IsFound true x y f g = f
either-IsFound false x y f g = g

or_command-AtMost :
    (command : String) (lines : List String)
    → AtMost (count_chars command) lines
    → AtMost (count_chars command) (or_command command lines)
or_command-AtMost command [] a = (omega arith, tt)
or_command-AtMost command (l ∷ lines) a = a

module _ (lexer : Lexer) (nested : String → Found) (n : ℕ)
    (finds : (command : String) → count_chars command < n → IsFound (nested command)) where
  look-IsFound :
      (segment : List String) (o : Option String)
      → after_dash_c segment ≡ o
      → size segment ≤ n
      → IsFound (look_inside lexer nested o)
  look-IsFound segment none e h = ([], refl)
  look-IsFound segment (some command) e h =
      finds command (omega (arith, after_dash_c-lt segment command e, h))

  segment-IsFound :
      (segment words : List String)
      → size segment ≤ n
      → IsFound (in_segment lexer nested segment words)
  segment-IsFound segment [] h = ([], refl)
  segment-IsFound segment (word ∷ words) h =
      either-IsFound (head_name word == "git") _ _ (_, refl)
        (either-IsFound (elem (head_name word) shells) _ _
          (look-IsFound segment (after_dash_c segment) refl h) (_, refl))

  line-IsFound :
      (segments : List (List String))
      → Small n segments
      → IsFound (invocations_in_line lexer nested segments)
  unfolding invocations_in_line
  line-IsFound [] a = ([], refl)
  line-IsFound (segment ∷ segments) (b, a) =
      append-IsFound (in_segment lexer nested segment (from_head segment))
        (invocations_in_line lexer nested segments) (segment-IsFound segment (from_head segment) b)
        (line-IsFound segments a)

  tokens-IsFound :
      (o : Option (List String)) (line : String)
      → CutsOut lexer.tokenize
      → lexer.tokenize line ≡ o
      → count_chars line ≤ n
      → IsFound (in_tokens lexer nested o)
  tokens-IsFound none line cut e b = ([], refl)
  tokens-IsFound (some tokens) line cut e b = line-IsFound (split_segments tokens) (
      smaller (0 + size tokens) n (split_segments tokens) (omega (arith, b, cut line tokens e))
        (segments_from-Small separators [] tokens))

  lines-IsFound :
      (lines : List String)
      → CutsOut lexer.tokenize
      → AtMost n lines
      → IsFound (invocations_in_lines lexer nested lines)
  unfolding invocations_in_lines
  lines-IsFound [] cut a = ([], refl)
  lines-IsFound (line ∷ lines) cut (b, a) =
      append-IsFound (in_tokens lexer nested (lexer.tokenize line))
        (invocations_in_lines lexer nested lines)
        (tokens-IsFound (lexer.tokenize line) line cut refl b) (lines-IsFound lines cut a)

-- The search for the invocations of a command ends with an answer: nesting as deep as the command
-- has characters is enough, for a lexer whose tokens are together no longer than their line.
pub invocations_at-finds :
    (lexer : Lexer) (fuel : ℕ) (command : String)
    → CutsOut lexer.tokenize
    → count_chars command < fuel
    → (found : List (List String)) × (invocations_at lexer fuel command ≡ some found)
unfolding invocations_at logical_lines
invocations_at-finds lexer zero command cut h = elim h [ ]
invocations_at-finds lexer (suc fuel) command cut h =
    lines-IsFound lexer (invocations_at lexer fuel) (count_chars command)
      (λ inner lt. invocations_at-finds lexer fuel inner cut (omega (arith, lt, h)))
      (logical_lines command) cut
      (or_command-AtMost command (split_lines (join_continued command)) (lines-AtMost command))
