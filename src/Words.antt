-- ===== src/Words.antt =====
-- The methods of `str` that the sources use on words: prefixes, cuts at a character, searches,
-- lines. A character is compared by its code point.
pub mod Glued
use Prim.Native.Char.{Char, code}
use Prim.Native.String
use borromean_rings.Base.{
  ℕ, String, Bool, true, false, not, ◌||◌, ◌&&◌, Option, none, some, List, [], ◌∷◌, nat_eq,
  if◌then◌else◌,
}
use borromean_rings.Base.Text.{is_space, is_break}

-- What follows a prefix of a text.
unfoldable pub cut_front : String → String → Option String
cut_front s String.[] = some s
cut_front String.[] (String.◌∷◌ p q) = none
cut_front (String.◌∷◌ c s) (String.◌∷◌ p q) =
    let rest = cut_front s q in if nat_eq (code c) (code p) then rest else none

abbrev pub is_some {ℓ} : {A : Type ℓ} → Option A → Bool
is_some none = false
is_some (some a) = true

-- `s.startswith(prefix)` and `s.removeprefix(prefix)`
unfoldable pub starts_with : String → String → Bool
unfolding cut_front
starts_with s prefix = is_some (cut_front s prefix)

abbrev or_whole : String → Option String → String
or_whole s none = s
or_whole s (some rest) = rest

unfoldable pub remove_prefix : String → String → String
unfolding cut_front
remove_prefix s prefix = or_whole s (cut_front s prefix)

-- `c in s`
unfoldable pub has_char : ℕ → String → Bool
has_char c String.[] = false
has_char c (String.◌∷◌ d s) = nat_eq (code d) c || has_char c s

-- `s.lstrip(c)`
unfoldable pub strip_front : ℕ → String → String
strip_front c String.[] = ""
strip_front c (String.◌∷◌ d s) =
    let rest = strip_front c s in if nat_eq (code d) c then rest else String.◌∷◌ d s

-- `needle in s`
unfoldable pub contains : String → String → Bool
unfolding starts_with
contains String.[] needle = starts_with "" needle
contains (String.◌∷◌ c s) needle = starts_with (String.◌∷◌ c s) needle || contains s needle

-- What stands before the first `c`, and what after it, empty if there is none: `s.partition(c)`.
unfoldable pub before_char : ℕ → String → String
before_char c String.[] = ""
before_char c (String.◌∷◌ d s) =
    let rest = before_char c s in if nat_eq (code d) c then "" else String.◌∷◌ d rest

unfoldable pub after_char : ℕ → String → String
after_char c String.[] = ""
after_char c (String.◌∷◌ d s) = let rest = after_char c s in if nat_eq (code d) c then s else rest

-- `s.rsplit(c, 1)[-1]`
unfoldable pub after_last : ℕ → String → String
unfolding has_char
after_last c String.[] = ""
after_last c (String.◌∷◌ d s) =
    let rest = after_last c s in if has_char c (String.◌∷◌ d s) then rest else String.◌∷◌ d s

-- `s.split(c)`
abbrev pub push_char : Char → List String → List String
push_char d [] = String.◌∷◌ d "" ∷ []
push_char d (piece ∷ pieces) = String.◌∷◌ d piece ∷ pieces

unfoldable pub split_char : ℕ → String → List String
split_char c String.[] = "" ∷ []
split_char c (String.◌∷◌ d s) =
    let rest = split_char c s in if nat_eq (code d) c then "" ∷ rest else push_char d rest

-- `s.split()`: the runs of characters that are no white space.
abbrev pub begins_word : String → Bool
begins_word String.[] = false
begins_word (String.◌∷◌ c s) = not (is_space (code c))

unfoldable pub split_words : String → List String
split_words String.[] = []
split_words (String.◌∷◌ d s) =
    let rest = split_words s in
    if is_space (code d)
    then rest
    else if begins_word s
    then push_char d rest
    else String.◌∷◌ d "" ∷ rest

-- `s.splitlines()`; a carriage return in front of a line feed belongs to its break.
abbrev pub begins_feed : String → Bool
begins_feed String.[] = false
begins_feed (String.◌∷◌ c s) = nat_eq (code c) 10

unfoldable pub split_lines : String → List String
split_lines String.[] = []
split_lines (String.◌∷◌ c s) =
    let rest = split_lines s in
    if is_break (code c)
    then if nat_eq (code c) 13 && begins_feed s then rest else "" ∷ rest
    else push_char c rest

-- `s.replace("\\\n", " ")`
unfoldable pub join_continued : String → String
join_continued String.[] = ""
join_continued (String.◌∷◌ c String.[]) = String.◌∷◌ c ""
join_continued (String.◌∷◌ c (String.◌∷◌ d s)) =
    let joined = join_continued s in
    let kept = join_continued (String.◌∷◌ d s) in
    if nat_eq (code c) 92 && nat_eq (code d) 10 then String.◌∷◌ " " joined else String.◌∷◌ c kept

-- Two texts, one after the other.
abbrev pub glue : String → String → String
glue String.[] t = t
glue (String.◌∷◌ c s) t = String.◌∷◌ c (glue s t)

-- `separator.join(pieces)`
unfoldable pub join_with : String → List String → String
join_with separator [] = ""
join_with separator (piece ∷ []) = piece
join_with separator (piece ∷ next ∷ pieces) =
    glue piece (glue separator (join_with separator (next ∷ pieces)))
