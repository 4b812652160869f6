-- ===== src/Provenance/Index.antt =====
-- The shingles of the sources, with the first line of each file that has them (provenance.py).
pub mod Found
use Prim.Native.Char.{code}
use Prim.Native.String
use borromean_rings.Base.{
  ℕ, zero, suc, ◌+◌, String, Bool, true, false, not, ◌||◌, ◌&&◌, Option, none, some, List, [], ◌∷◌,
  ◌++◌, ◌==◌, any, ltb, nat_eq, if◌then◌else◌,
}
use borromean_rings.Base.Names.{name_lt}
use borromean_rings.Base.Text.{is_space}
use borromean_rings.Base.Decimal.{strip}
use borromean_rings.Words.{join_with, starts_with, split_words, split_lines}
use borromean_rings.Provenance.Shingles.{
  Words, Letters, Shingle, cleaned, normalize_words, located_words, first_words, windows, shingles,
  words_eq, starts_run, contains_run, is_allowed, normalized_allow,
}

abbrev pub Hits : Type 0
Hits = List (String × ℕ)

abbrev pub Index : Type 0
Index = List (Words × Hits)

-- `setdefault`
abbrev pub set_default : String → ℕ → Hits → Hits
set_default path line hits = if any (λ h. h.0 == path) hits then hits else hits ++ (path, line) ∷ []

unfoldable pub add_hit : Words → String → ℕ → Index → Index
unfolding words_eq
add_hit words path line [] = (words, (path, line) ∷ []) ∷ []
add_hit words path line ((w, hits) ∷ index) =
    let rest = add_hit words path line index in
    if words_eq w words then (w, set_default path line hits) ∷ index else (w, hits) ∷ rest

unfoldable pub index_shingles : String → List Shingle → Index → Index
unfolding add_hit
index_shingles path [] index = index
index_shingles path (s ∷ ss) index = index_shingles path ss (add_hit s.words path s.line index)

-- A mapping of paths to texts.
abbrev pub Texts : Type 0
Texts = List (String × String)

unfoldable pub source_index : Letters → ℕ → Texts → Index → Index
unfolding index_shingles shingles
source_index letters n [] index = index
source_index letters n ((path, text) ∷ sources) index =
    source_index letters n sources (index_shingles path (shingles letters text n) index)

-- `index.get(words)`; nothing is found where there is no entry.
unfoldable pub hits_at : Words → Index → Hits
unfolding words_eq
hits_at words [] = []
hits_at words ((w, hits) ∷ index) =
    let rest = hits_at words index in if words_eq w words then hits else rest
