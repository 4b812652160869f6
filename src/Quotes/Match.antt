-- ===== src/Quotes/Match.antt =====
-- Whether a quotation is verbatim in a span: the normalised lines and their comparison (quotes.py).
pub mod Covers
pub mod Occurs
use Prim.Native.Char.{Char, code}
use Prim.Native.String
use borromean_rings.Base.{
  ℕ, String, Bool, true, false, not, ◌||◌, ◌&&◌, Option, none, some, List, [], ◌∷◌, ◌==◌, any, keep,
  nat_eq, if◌then◌else◌,
}
use borromean_rings.Base.Decimal.{strip, strip_right}
use borromean_rings.Words.{cut_front, split_words, split_lines, join_with}
use borromean_rings.Rewrite.Assess.{strip_end}
use borromean_rings.Quotes.{Reader}

-- `". , ; : ! ?"` and the ellipsis.
abbrev trailing_punctuation : List ℕ
trailing_punctuation = 46 ∷ 44 ∷ 59 ∷ 58 ∷ 33 ∷ 63 ∷ 8230 ∷ []

-- `text.translate(_CURLY)`
unfoldable pub straighten : String → String
straighten String.[] = ""
straighten (String.◌∷◌ c s) =
    let rest = straighten s in
    if nat_eq (code c) 8216 || nat_eq (code c) 8217
    then String.◌∷◌ "'" rest
    else if nat_eq (code c) 8220 || nat_eq (code c) 8221
    then String.◌∷◌ "\"" rest
    else String.◌∷◌ c rest

abbrev push_front : Char → Option String → Option String
push_front c none = none
push_front c (some s) = some (String.◌∷◌ c s)

-- A text without the double quote that it ends in.
unfoldable pub drop_last_quote : String → Option String
drop_last_quote String.[] = none
drop_last_quote (String.◌∷◌ c String.[]) = if nat_eq (code c) 34 then some "" else none
drop_last_quote (String.◌∷◌ c (String.◌∷◌ d s)) = push_front c (drop_last_quote (String.◌∷◌ d s))

abbrev or_quoted : String → Option String → String
or_quoted whole none = whole
or_quoted whole (some inner) = inner

-- A text without one pair of double quotes around it.
unfoldable pub unwrap : String → String
unfolding drop_last_quote
unwrap String.[] = ""
unwrap (String.◌∷◌ c s) =
    if nat_eq (code c) 34 then or_quoted (String.◌∷◌ c s) (drop_last_quote s) else String.◌∷◌ c s

unfoldable pub strip_ends : String → String
unfolding strip strip_right strip_end unwrap
strip_ends text =
    strip
      (strip_end trailing_punctuation (unwrap (strip_right (strip_end trailing_punctuation text))))

unfoldable pub normalise : String → String
unfolding strip_ends join_with split_words straighten
normalise text = strip_ends (join_with " " (split_words (straighten text)))

unfoldable pub collapsed : List String → List String
unfolding join_with split_words
collapsed [] = []
collapsed (raw ∷ lines) =
    let rest = collapsed lines in
    let line = join_with " " (split_words raw) in if line == "" then rest else line ∷ rest

unfoldable pub normalise_lines : String → List String
unfolding strip_ends strip straighten collapsed split_lines
normalise_lines text = collapsed (split_lines (strip_ends (strip (straighten text))))

-- The first and the last character.
abbrev pub first_code : String → Option ℕ
first_code String.[] = none
first_code (String.◌∷◌ c s) = some (code c)

unfoldable pub last_code : String → Option ℕ
last_code String.[] = none
last_code (String.◌∷◌ c String.[]) = some (code c)
last_code (String.◌∷◌ c (String.◌∷◌ d s)) = last_code (String.◌∷◌ d s)

module _ (reader : Reader) where
  abbrev alnum : Option ℕ → Bool
  alnum none = false
  alnum (some c) = reader.is_alnum c

  -- Whether a word goes on between two characters; there is none beyond the ends of a line.
  abbrev pub joins : Option ℕ → Option ℕ → Bool
  joins a b = alnum a && alnum b

  -- Whether what follows the needle does not go on with its last word.
  abbrev pub ends_word : String → Option String → Bool
  ends_word needle none = false
  ends_word needle (some rest) = not (joins (last_code needle) (first_code rest))

  -- Whether the needle stands in front of a line; `before` is the character in front of it.
  abbrev pub stands_at : Option ℕ → String → String → Bool
  stands_at before needle hay =
      not (joins before (first_code hay)) && ends_word needle (cut_front hay needle)

  -- `_within_line` past the character `before`; the needle is not empty.
  unfoldable pub within_from : Option ℕ → String → String → Bool
  unfolding cut_front last_code
  within_from before needle String.[] = false
  within_from before needle (String.◌∷◌ c s) =
      stands_at before needle (String.◌∷◌ c s) || within_from (some (code c)) needle s

  abbrev pub within_line : String → String → Bool
  within_line needle hay = within_from none needle hay

  unfoldable pub ends_line_from : Option ℕ → String → String → Bool
  ends_line_from before needle String.[] = false
  ends_line_from before needle (String.◌∷◌ c s) =
      String.◌∷◌ c s == needle && not (joins before (some (code c)))
      || ends_line_from (some (code c)) needle s

  abbrev pub ends_line : String → String → Bool
  ends_line needle hay = ends_line_from none needle hay

  abbrev pub starts_line : String → String → Bool
  starts_line needle hay = ends_word needle (cut_front hay needle)

  -- The lines after the first: each is equal, and the last starts its line.
  unfoldable pub follows : List String → List String → Bool
  unfolding cut_front last_code
  follows [] hay = true
  follows (n ∷ ns) [] = false
  follows (n ∷ []) (h ∷ hay) = starts_line n h
  follows (n ∷ m ∷ ns) (h ∷ hay) = h == n && follows (m ∷ ns) hay

  -- `needle` and `others` cover a run of lines that begins somewhere.
  unfoldable pub covers : String → List String → List String → Bool
  unfolding ends_line_from follows
  covers needle others [] = false
  covers needle others (h ∷ hay) =
      ends_line needle h && follows others hay || covers needle others hay

  unfoldable pub match_lines : List String → List String → Bool
  unfolding within_from covers
  match_lines [] hay = false
  match_lines (n ∷ []) hay = any (λ line. within_line n line) hay
  match_lines (n ∷ m ∷ ns) hay = covers n (m ∷ ns) hay

  unfoldable pub matches : String → String → Bool
  unfolding normalise_lines match_lines
  matches quote span = match_lines (normalise_lines quote) (normalise_lines span)
