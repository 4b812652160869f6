-- ===== src/Provenance/Compare.antt =====
-- The overlaps of changed texts with sources, split by the allowlist (provenance.py).
pub mod Unlisted
use Prim.Native.Char.{code}
use Prim.Native.String
use borromean_rings.Base.{
  ℕ, zero, suc, ◌+◌, String, Bool, true, false, not, ◌||◌, ◌&&◌, Option, none, some, List, [], ◌∷◌,
  ◌++◌, ◌==◌, any, ltb, nat_eq, if◌then◌else◌,
}
use borromean_rings.Base.Names.{name_lt}
use borromean_rings.Base.Text.{is_space}
use borromean_rings.Base.Decimal.{strip}
use borromean_rings.Words.{join_with, starts_with, split_words, split_lines}
use borromean_rings.Provenance.Shingles.{
  Words, Letters, Shingle, cleaned, normalize_words, located_words, first_words, windows, shingles,
  words_eq, starts_run, contains_run, is_allowed, normalized_allow,
}
use borromean_rings.Provenance.Index.{
  Hits, Index, set_default, add_hit, index_shingles, Texts, source_index, hits_at,
}

pub record Overlap : Type 0 where
  pub shingle : String
  pub changed_path : String
  pub changed_line : ℕ
  pub source_path : String
  pub source_line : ℕ

pub record Comparison : Type 0 where
  pub findings : List Overlap
  pub allowed : List Overlap

abbrev pub overlaps_at : String → Shingle → Hits → List Overlap
overlaps_at path s [] = []
overlaps_at path s ((source, line) ∷ hits) =
    record {
      shingle = join_with " " s.words;
      changed_path = path;
      changed_line = s.line;
      source_path = source;
      source_line = line;
    }
    ∷ overlaps_at path s hits

abbrev pub add_overlaps : Bool → List Overlap → Comparison → Comparison
add_overlaps true found c = record c { allowed = found ++ c.allowed }
add_overlaps false found c = record c { findings = found ++ c.findings }

module _ (letters : Letters) (phrases : List Words) (index : Index) where
  unfoldable pub compare_shingles : String → List Shingle → Comparison
  unfolding join_with hits_at is_allowed
  compare_shingles path [] = record { findings = []; allowed = [] }
  compare_shingles path (s ∷ ss) =
      add_overlaps (is_allowed s.words phrases) (overlaps_at path s (hits_at s.words index))
        (compare_shingles path ss)

  abbrev pub both : Comparison → Comparison → Comparison
  both a b = record { findings = a.findings ++ b.findings; allowed = a.allowed ++ b.allowed }

  unfoldable pub compare_texts : ℕ → Texts → Comparison
  unfolding compare_shingles shingles
  compare_texts n [] = record { findings = []; allowed = [] }
  compare_texts n ((path, text) ∷ changed) =
      both (compare_shingles path (shingles letters text n)) (compare_texts n changed)

-- `sorted` by path, line, shingle and source path, of a set.
abbrev pub before : Overlap → Overlap → Bool
before a b =
    name_lt a.changed_path b.changed_path
    || a.changed_path == b.changed_path
      && (ltb a.changed_line b.changed_line
          || nat_eq a.changed_line b.changed_line
            && (name_lt a.shingle b.shingle
                || a.shingle == b.shingle && name_lt a.source_path b.source_path))

abbrev pub same_overlap : Overlap → Overlap → Bool
same_overlap a b =
    a.changed_path == b.changed_path
    && nat_eq a.changed_line b.changed_line
    && a.shingle == b.shingle
    && a.source_path == b.source_path
    && nat_eq a.source_line b.source_line

unfoldable pub insert_overlap : Overlap → List Overlap → List Overlap
insert_overlap a [] = a ∷ []
insert_overlap a (b ∷ found) =
    let rest = insert_overlap a found in
    if same_overlap a b then b ∷ found else if before a b then a ∷ b ∷ found else b ∷ rest

unfoldable pub sorted_overlaps : List Overlap → List Overlap
unfolding insert_overlap
sorted_overlaps [] = []
sorted_overlaps (a ∷ found) = insert_overlap a (sorted_overlaps found)

abbrev compare_with : Letters → Texts → Texts → ℕ → Option (List Words) → Option Comparison
compare_with letters changed sources n none = none
compare_with letters changed sources n (some phrases) =
    let c = compare_texts letters phrases (source_index letters n sources []) n changed in
    some (record { findings = sorted_overlaps c.findings; allowed = sorted_overlaps c.allowed })

abbrev findings_of : Option Comparison → Option (List Overlap)
findings_of none = none
findings_of (some c) = some c.findings

abbrev pub has_texts : Texts → Bool
has_texts [] = false
has_texts (text ∷ texts) = true

-- `none` is a ValueError: an entry without a word, or a size of no words where there is a text.
unfoldable pub compare : Letters → Texts → Texts → List String → ℕ → Option Comparison
unfolding normalized_allow compare_texts source_index sorted_overlaps
compare letters changed sources allow n =
    if ltb n 1 && (has_texts sources || has_texts changed)
    then none
    else compare_with letters changed sources n (normalized_allow letters allow)

-- The overlaps that are not listed.
unfoldable pub overlaps : Letters → Texts → Texts → List String → ℕ → Option (List Overlap)
unfolding compare
overlaps letters changed sources allow n = findings_of (compare letters changed sources allow n)
