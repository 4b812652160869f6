-- ===== src/Provenance/Shingles.antt =====
-- The shingles of a text and the allowlist of phrases (provenance.py).
use Prim.Native.Char.{code}
use borromean_rings.Base.{
  ℕ, zero, suc, String, Bool, true, false, not, ◌||◌, ◌&&◌, Option, none, some, List, [], ◌∷◌, ◌++◌,
  ◌==◌, any, if◌then◌else◌,
}
use borromean_rings.Base.Text.{is_space}
use borromean_rings.Base.Decimal.{strip}
use borromean_rings.Words.{starts_with, split_words, split_lines}

abbrev pub Words : Type 0
Words = List String

-- `str.lower` and `str.isalnum`.
pub record Letters : Type 0 where
  pub lower : String → String
  pub is_alnum : ℕ → Bool

pub record Shingle : Type 0 where
  pub words : Words
  pub line : ℕ

unfoldable pub cleaned : Letters → String → String
cleaned letters String.[] = ""
cleaned letters (String.◌∷◌ c s) =
    let rest = cleaned letters s in
    if letters.is_alnum (code c) || is_space (code c)
    then String.◌∷◌ c rest
    else String.◌∷◌ " " rest

unfoldable pub normalize_words : Letters → String → Words
unfolding cleaned split_words
normalize_words letters line = split_words (cleaned letters (letters.lower line))

abbrev is_fence : String → Bool
is_fence line = starts_with (strip line) "```"

abbrev numbered_words : ℕ → Words → List (String × ℕ)
numbered_words number [] = []
numbered_words number (word ∷ words) = (word, number) ∷ numbered_words number words

unfoldable pub located_words : Letters → Bool → ℕ → List String → List (String × ℕ)
unfolding starts_with strip normalize_words
located_words letters fenced number [] = []
located_words letters fenced number (line ∷ lines) =
    let rest = located_words letters fenced (suc number) lines in
    if is_fence line
    then located_words letters (not fenced) (suc number) lines
    else if fenced
    then rest
    else numbered_words number (normalize_words letters line) ++ rest

abbrev push_word : String → Option Words → Option Words
push_word word none = none
push_word word (some words) = some (word ∷ words)

-- The first `n` words, if there are as many.
unfoldable pub first_words : ℕ → List (String × ℕ) → Option Words
first_words zero located = some []
first_words (suc n) [] = none
first_words (suc n) ((word, line) ∷ located) = push_word word (first_words n located)

abbrev add_shingle : Option Words → ℕ → List Shingle → List Shingle
add_shingle none line shingles = shingles
add_shingle (some words) line shingles = record { words = words; line = line } ∷ shingles

unfoldable pub windows : ℕ → List (String × ℕ) → List Shingle
unfolding first_words
windows n [] = []
windows n ((word, line) ∷ located) =
    add_shingle (first_words n ((word, line) ∷ located)) line (windows n located)

-- The shingles of a text, for a size of at least one word; `compare` refuses another.
unfoldable pub shingles : Letters → String → ℕ → List Shingle
unfolding windows located_words split_lines
shingles letters text n = windows n (located_words letters false 1 (split_lines text))

unfoldable pub words_eq : Words → Words → Bool
words_eq [] [] = true
words_eq [] (w ∷ ws) = false
words_eq (v ∷ vs) [] = false
words_eq (v ∷ vs) (w ∷ ws) = v == w && words_eq vs ws

unfoldable pub starts_run : Words → Words → Bool
starts_run haystack [] = true
starts_run [] (n ∷ needle) = false
starts_run (h ∷ haystack) (n ∷ needle) = h == n && starts_run haystack needle

unfoldable pub contains_run : Words → Words → Bool
unfolding starts_run
contains_run [] needle = starts_run [] needle
contains_run (h ∷ haystack) needle =
    starts_run (h ∷ haystack) needle || contains_run haystack needle

unfoldable pub is_allowed : Words → List Words → Bool
unfolding contains_run
is_allowed words allow =
    any (λ phrase. contains_run words phrase || contains_run phrase words) allow

abbrev add_phrase : Words → Option (List Words) → Option (List Words)
add_phrase [] phrases = none
add_phrase (w ∷ ws) none = none
add_phrase (w ∷ ws) (some phrases) = some ((w ∷ ws) ∷ phrases)

-- The phrases of the allowlist; `none` is the ValueError of an entry without a word.
unfoldable pub normalized_allow : Letters → List String → Option (List Words)
unfolding normalize_words
normalized_allow letters [] = some []
normalized_allow letters (entry ∷ allow) =
    add_phrase (normalize_words letters entry) (normalized_allow letters allow)
