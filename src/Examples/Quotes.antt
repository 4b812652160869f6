-- ===== src/Examples/Quotes.antt =====
-- Tests and witnesses: the quotations of a document.
use borromean_rings.Base.{
  String, ◌≡◌, refl, ◌↔◌, true, false, none, some, [], ◌∷◌, ◌++◌, map, leb, if◌then◌else◌,
}
use borromean_rings.Base.{inl}
use borromean_rings.Words.{glue}
use borromean_rings.Base.Text.{is_space, is_break}
use borromean_rings.Base.Decimal.{strip, strip_left, strip_right}
use borromean_rings.Words.{join_with, cut_front, starts_with, split_words, split_lines, split_char}
use borromean_rings.Rewrite.Assess.{strip_end}
use borromean_rings.Quotes.{Reader, Marker}
use borromean_rings.Quotes.Match.{
  straighten, unwrap, drop_last_quote, strip_ends, collapsed, normalise_lines, last_code,
  within_from, ends_line_from, follows, covers, match_lines, matches,
}
use borromean_rings.Quotes.Match.Covers.{Covers, matches-Covers}
use borromean_rings.Quotes.Match.Occurs.{OccursIn, matches-OccursIn}
use borromean_rings.Quotes.Extract.{
  is_fence, parse_marker, blockquote_text, feed, feed_all, extract,
}
use borromean_rings.Quotes.Extract.Blocks.{
  quoted, IsBlank, Marks, Ends, feed_all-quoted, feed_all-fenced,
}
use borromean_rings.Quotes.Verify.{
  Answer, contents, verbatim, escapes_root, take_lines, skip_lines, judge_lines, lookup, load,
  verify_one, verify_from, verify,
}
use borromean_rings.Quotes.Verify.Entries.{NoDup}
use borromean_rings.Quotes.Verify.Cached.{logged, fresh_all, verify-fresh}

abbrev source_line : String
source_line = "-- source: a#L1"

-- A reader that knows one marker, and takes every character but white space for a word's.
abbrev one_marker : Reader
one_marker = record {
  match_marker = λ line.
      if starts_with line source_line
      then some (record { span_path = "a"; start_digits = "1"; end_digits = none })
      else none;
  int_of = λ digits. 1;
  is_alnum = λ c. leb 65 c;
}

abbrev line_one : Marker
line_one = record { path = "a"; first = 1; last = 1 }

abbrev document : String
document = "> the words\n\n-- source: a#L1\n"

abbrev resolver : String → Answer
resolver path = contents "Here are “the words” again.\n"

-- The words are found in the line, the quotation at the line that it begins at.
verify_test :
    verify one_marker (logged one_marker resolver) document []
    ≡ (some (record { at = 1; marker = line_one; status = verbatim } ∷ []), "a" ∷ [])
unfolding verify verify_from verify_one load lookup escapes_root judge_lines take_lines skip_lines
    matches match_lines within_from last_code cut_front normalise_lines strip_ends strip_end strip
    strip_left strip_right straighten collapsed split_lines split_words split_char join_with
    is_space is_break unwrap drop_last_quote extract feed_all feed is_fence starts_with parse_marker
    blockquote_text
verify_test = refl

verify-fresh_example :
    let (results, log) = verify one_marker (logged one_marker resolver) document [] in
    (results ≡ fresh_all one_marker resolver (extract one_marker document)) × NoDup log
verify-fresh_example = verify-fresh one_marker resolver document

normal-words : normalise_lines "\"the  words\"." ≡ "the words" ∷ []
unfolding normalise_lines strip_ends strip_end strip strip_left strip_right straighten collapsed
    split_lines split_words join_with is_space is_break unwrap drop_last_quote
normal-words = refl

matches-OccursIn_example :
    (matches one_marker "\"the  words\"." "the words again" ≡ true)
    ↔ OccursIn one_marker "the words" (normalise_lines "the words again")
matches-OccursIn_example =
    matches-OccursIn one_marker "\"the  words\"." "the words again" "the words" normal-words

no_text-IsBlank : IsBlank one_marker ""
unfolding is_fence strip_left starts_with cut_front parse_marker strip strip_right
no_text-IsBlank = ((refl, refl), refl, refl)

source_line-Marks : Marks one_marker source_line line_one
unfolding is_fence strip_left is_space starts_with cut_front parse_marker
source_line-Marks = ((refl, refl), refl)

feed_all-quoted_example :
    Ends one_marker
      (feed_all one_marker
        (record { found = []; pending = none; pending_line = 0; closed = false; in_fence = false })
        1
        (map quoted ("a" ∷ "b" ∷ []) ++ (("" ∷ []) ++ source_line ∷ [])))
      (record { at = 1; text = some (join_with "\n" ("a" ∷ "b" ∷ [])); marker = line_one } ∷ [])
feed_all-quoted_example =
    feed_all-quoted one_marker [] 0 false 1 "a" ("b" ∷ []) ("" ∷ []) source_line line_one
      (no_text-IsBlank, tt) source_line-Marks

feed_all-fenced_example :
    Ends one_marker
      (feed_all one_marker
        (record { found = []; pending = none; pending_line = 0; closed = false; in_fence = false })
        1
        (glue "```" "md" ∷ ((quoted "x" ∷ source_line ∷ []) ++ "```" ∷ [])))
      []
unfolding is_fence strip_left is_space starts_with cut_front
feed_all-fenced_example =
    feed_all-fenced one_marker
      (record { found = []; pending = none; pending_line = 0; closed = false; in_fence = false }) 1
      (quoted "x" ∷ source_line ∷ []) "```" "md" refl (inl refl) refl (refl, (refl, tt))

two_lines : normalise_lines "first  part\nsecond." ≡ "first part" ∷ "second" ∷ []
unfolding normalise_lines strip_ends strip_end strip strip_left strip_right straighten collapsed
    split_lines split_words join_with is_space is_break unwrap
two_lines = refl

matches-Covers_example :
    (matches one_marker "first  part\nsecond." "the first part\nsecond half" ≡ true)
    ↔ Covers one_marker "first part" ("second" ∷ []) (normalise_lines "the first part\nsecond half")
matches-Covers_example =
    matches-Covers one_marker "first  part\nsecond." "the first part\nsecond half" "first part"
      "second" [] two_lines

-- Two lines are covered where the second goes on, and not where its word does.
covered_test : matches one_marker "first  part\nsecond." "the first part\nsecond half" ≡ true
unfolding matches match_lines covers follows ends_line_from last_code cut_front normalise_lines
    strip_ends strip_end strip strip_left strip_right straighten collapsed split_lines split_words
    join_with is_space is_break unwrap
covered_test = refl

cut_word_test : matches one_marker "first  part\nsecond." "the first part\nseconds" ≡ false
unfolding matches match_lines covers follows ends_line_from last_code cut_front normalise_lines
    strip_ends strip_end strip strip_left strip_right straighten collapsed split_lines split_words
    join_with is_space is_break unwrap
cut_word_test = refl
