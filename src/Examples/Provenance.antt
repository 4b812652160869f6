-- ===== src/Examples/Provenance.antt =====
-- Tests and witnesses: the provenance gate.
use borromean_rings.Base.{◌≡◌, refl, ◌↔◌, ◌⊎◌, true, some, [], ◌∷◌, All, leb}
use borromean_rings.Base.Text.{is_space, is_break}
use borromean_rings.Base.Decimal.{strip, strip_left, strip_right}
use borromean_rings.Words.{join_with, starts_with, cut_front, split_words, split_lines}
use borromean_rings.Provenance.Shingles.{
  Letters, cleaned, normalize_words, located_words, first_words, windows, shingles, words_eq,
  starts_run, contains_run, is_allowed, normalized_allow,
}
use borromean_rings.Provenance.Index.{Texts, add_hit, index_shingles, source_index, hits_at}
use borromean_rings.Provenance.Compare.{
  compare_shingles, compare_texts, insert_overlap, sorted_overlaps, compare, overlaps,
}
use borromean_rings.Provenance.Index.Found.{Absent}
use borromean_rings.Provenance.Compare.Unlisted.{overlaps-none}

abbrev ascii : Letters
ascii = record { lower = λ s. s; is_alnum = λ c. leb 48 c }

abbrev port : Texts
port = ("docs/port.md", "one two, three four\n```\nfive six seven\n```\n") ∷ []

abbrev origin : Texts
origin = ("theirs.md", "zero\none two three five six seven") ∷ []

-- Fenced words are not compared; the line of the source is where its shingle begins.
overlaps_test :
    overlaps ascii port origin ("three four" ∷ []) 3
    ≡ some (
        record {
          shingle = "one two three";
          changed_path = "docs/port.md";
          changed_line = 1;
          source_path = "theirs.md";
          source_line = 2;
        }
        ∷ [])
unfolding overlaps compare compare_texts compare_shingles source_index index_shingles add_hit
    hits_at words_eq shingles windows first_words located_words normalize_words cleaned is_space
    is_break split_words split_lines strip strip_left strip_right starts_with cut_front join_with
    normalized_allow is_allowed contains_run starts_run sorted_overlaps insert_overlap
overlaps_test = refl

one_phrase : normalized_allow ascii ("two three" ∷ []) ≡ some (("two" ∷ "three" ∷ []) ∷ [])
unfolding normalized_allow normalize_words cleaned split_words is_space
one_phrase = refl

overlaps-none_example :
    (overlaps ascii port origin ("two three" ∷ []) 3 ≡ some [])
    ↔ All
        (λ c.
          All
            (λ s.
              (is_allowed s.words (("two" ∷ "three" ∷ []) ∷ []) ≡ true)
              ⊎ Absent ascii 3 origin s.words)
            (shingles ascii c.1 3))
        port
overlaps-none_example =
    overlaps-none ascii port origin ("two three" ∷ []) 2 (("two" ∷ "three" ∷ []) ∷ []) one_phrase
