-- ===== src/Lane/Arguments.antt =====
-- The words that the shell gets for the declared fast paths.
use Prim.Native.Char.{Char, code}
use borromean_rings.Base.{
  String, ◌≡◌, ◌≢◌, refl, sym, ◌∙◌, ap, true, false, Option, none, some, List, [], ◌∷◌, ◌==◌, All,
  arith, Bool-cases, inl, inr, eq_iff, map, if◌then◌else◌, subst, some-inj,
}
use borromean_rings.Base.Text.{is_space}
use borromean_rings.Base.Decimal.{strip}
use borromean_rings.Words.{glue, join_with, split_words, push_char}
use borromean_rings.Lane.{fast, fast_test_paths, needs_quotes, quote, join_quoted, fast_pytest_args}
use borromean_rings.Lane.Narrowing.{all_plain, IsSafe, validate_fast_paths-IsSafe}

-- What a plain text says to the shell: itself, as one word.
abbrev IsWord : String → Type 0
IsWord s = (s ≢ "") × (all_plain s ≡ true)

plain_is_word :
    (c : Char) (s : String) → all_plain (String.◌∷◌ c s) ≡ true → is_space (code c) ≡ false
unfolding is_space
plain_is_word c s h = ground arith

plain-unquoted : (s : String) → all_plain s ≡ true → needs_quotes s ≡ false
unfolding needs_quotes
plain-unquoted String.[] h = refl
plain-unquoted (String.◌∷◌ c s) h = ground (arith, plain-unquoted s)

quote-word : (s : String) → IsWord s → quote s ≡ s
unfolding quote
quote-word s (n, h) = ground (arith, eq_iff s "", plain-unquoted s h)

tail_word : (c : Char) (s : String) → all_plain (String.◌∷◌ c s) ≡ true → all_plain s ≡ true
tail_word c s h = ground arith

-- A character of a word goes in front of the first word of what follows.
same_word :
    (c d : Char) (s : String)
    → is_space (code c) ≡ false
    → is_space (code d) ≡ false
    → split_words (String.◌∷◌ c (String.◌∷◌ d s)) ≡ push_char c (split_words (String.◌∷◌ d s))
unfolding split_words
same_word c d s e f = rw (e, f) refl

last_char :
    (c : Char) (t : String)
    → is_space (code c) ≡ false
    → split_words (String.◌∷◌ c (glue " " t)) ≡ String.◌∷◌ c "" ∷ split_words t
unfolding split_words is_space
last_char c t e = rw e refl

last_word :
    (c : Char) (s : String)
    → all_plain (String.◌∷◌ c s) ≡ true
    → split_words (String.◌∷◌ c s) ≡ String.◌∷◌ c s ∷ []
unfolding split_words
last_word c String.[] h = rw (plain_is_word c "" h) refl
last_word c (String.◌∷◌ d s) h =
    let rest = tail_word c (String.◌∷◌ d s) h in
    same_word c d s (plain_is_word c (String.◌∷◌ d s) h) (plain_is_word d s rest)
    ∙ ap (push_char c) (last_word d s rest)

next_word :
    (c : Char) (s t : String)
    → all_plain (String.◌∷◌ c s) ≡ true
    → split_words (String.◌∷◌ c (glue s (glue " " t))) ≡ String.◌∷◌ c s ∷ split_words t
next_word c String.[] t h = last_char c t (plain_is_word c "" h)
next_word c (String.◌∷◌ d s) t h =
    let rest = tail_word c (String.◌∷◌ d s) h in
    same_word c d (glue s (glue " " t)) (plain_is_word c (String.◌∷◌ d s) h)
      (plain_is_word d s rest)
    ∙ ap (push_char c) (next_word d s t rest)

joined_words : (paths : List String) → All IsWord paths → split_words (join_with " " paths) ≡ paths
unfolding split_words join_with
joined_words [] h = refl
joined_words (String.[] ∷ paths) h = absurd (h.0.0 refl)
joined_words (String.◌∷◌ c s ∷ []) h = last_word c s h.0.1
joined_words (String.◌∷◌ c s ∷ path ∷ paths) h =
    next_word c s (join_with " " (path ∷ paths)) h.0.1
    ∙ ap (◌∷◌ (String.◌∷◌ c s)) (joined_words (path ∷ paths) h.1)

quoted_words : (paths : List String) → All IsWord paths → map quote paths ≡ paths
quoted_words [] h = refl
quoted_words (path ∷ paths) h = rw (quote-word path h.0) (ap (◌∷◌ path) (quoted_words paths h.1))

safe_words : (paths : List String) → All IsSafe paths → All IsWord paths
safe_words [] h = tt
safe_words (path ∷ paths) h = ((h.0.0, h.0.1), safe_words paths h.1)

-- The paths that a lane narrows the tests to, of the declared ones.
abbrev pub paths_in : List String → String → List String
paths_in declared lane = if lane == fast then map strip declared else []

nothing : (paths : List String) → some [] ≡ some paths → All IsSafe paths × (paths ≡ [])
nothing [] h = (tt, refl)
nothing (path ∷ paths) h = cc

in_lane :
    (declared : List String) (lane : String) (paths : List String)
    → fast_test_paths declared lane ≡ some paths
    → All IsSafe paths × (paths ≡ paths_in declared lane)
unfolding fast_test_paths
in_lane declared lane paths h = elim (Bool-cases (lane == fast)) [
  | inl e ↦ rw e (validate_fast_paths-IsSafe declared paths (rw e at h))
  | inr e ↦ rw e (nothing paths (rw e at h))
]

joined_text :
    (found : Option (List String)) (arguments : String)
    → join_quoted found ≡ some arguments
    → (paths : List String) × (found ≡ some paths) × (join_with " " (map quote paths) ≡ arguments)
joined_text none arguments h = cc
joined_text (some paths) arguments h = (paths, refl, some-inj _ arguments h)

-- Where the declared fast paths are accepted, the words of the argument text are, in the fast
-- lane, the declared paths without the white space round them, one word each, and no word in
-- another lane. Each word is safe: not empty, of plain characters, relative, with no `..` in it,
-- and no option of a command.
pub fast_pytest_args-words :
    (declared : List String) (lane arguments : String)
    → fast_pytest_args declared lane ≡ some arguments
    → (split_words arguments ≡ paths_in declared lane) × All IsSafe (split_words arguments)
unfolding fast_pytest_args
fast_pytest_args-words declared lane arguments h =
    let (paths, f, g) = joined_text (fast_test_paths declared lane) arguments h in
    let (safe, same) = in_lane declared lane paths f in
    let words : split_words arguments ≡ paths =
      ap split_words (sym g ∙ ap (join_with " ") (quoted_words paths (safe_words paths safe)))
      ∙ joined_words paths (safe_words paths safe) in
    (words ∙ same, subst (All IsSafe) (sym words) safe)
