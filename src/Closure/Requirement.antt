-- ===== src/Closure/Requirement.antt =====
-- What closure.py reads off a requirement string. A text is its code points. `str.lower` and the
-- word characters of `re` are the parameter `Unicode`.
use borromean_rings.Base.{
  ℕ, zero, suc, ◌+◌, Bool, true, false, not, ◌&&◌, ◌||◌, Option, none, some, List, [], ◌∷◌, ◌++◌,
  any, leb, nat_eq, length, if◌then◌else◌,
}
use borromean_rings.Base.Text.{is_space}

abbrev pub Text : Type 0
Text = List ℕ

pub record Unicode : Type 0 where
  pub lower : Text → Text
  pub is_word : ℕ → Bool

unfoldable pub text_eq : Text → Text → Bool
text_eq [] [] = true
text_eq (a ∷ s) (b ∷ t) = nat_eq a b && text_eq s t
text_eq s t = false

abbrev pub contains : Text → List Text → Bool
contains name names = any (text_eq name) names

-- `[A-Za-z0-9]` and `[A-Za-z0-9._-]`
abbrev is_alnum : ℕ → Bool
is_alnum c = leb 65 c && leb c 90 || leb 97 c && leb c 122 || leb 48 c && leb c 57

abbrev is_name_char : ℕ → Bool
is_name_char c = is_alnum c || nat_eq c 46 || nat_eq c 95 || nat_eq c 45

-- `[-_.]`
abbrev is_separator : ℕ → Bool
is_separator c = nat_eq c 45 || nat_eq c 95 || nat_eq c 46

-- `re.sub(r"[-_.]+", "-", name)`; the flag is set inside a run of separators.
unfoldable pub squash : Bool → Text → Text
squash inside [] = []
squash inside (c ∷ s) =
    let rest = squash (is_separator c) s in
    if is_separator c then if inside then rest else 45 ∷ rest else c ∷ rest

unfoldable pub normalise : Unicode → Text → Text
unfolding squash
normalise u name = u.lower (squash false name)

unfoldable pub skip_spaces : Text → Text
skip_spaces [] = []
skip_spaces (c ∷ s) = if is_space c then skip_spaces s else c ∷ s

-- The longest run at the front of characters that pass a test, and what follows it.
unfoldable pub span : (ℕ → Bool) → Text → Text × Text
span p [] = ([], [])
span p (c ∷ s) = let (run, rest) = span p s in if p c then (c ∷ run, rest) else ([], c ∷ s)

-- `^\s*([A-Za-z0-9][A-Za-z0-9._-]*)`: the name and what follows it.
abbrev match_at : Text → Option (Text × Text)
match_at [] = none
match_at (c ∷ s) = let found = span is_name_char (c ∷ s) in if is_alnum c then some found else none

unfoldable pub match_name : Text → Option (Text × Text)
unfolding skip_spaces span
match_name requirement = match_at (skip_spaces requirement)

abbrev name_of : Unicode → Option (Text × Text) → Option Text
name_of u none = none
name_of u (some (name, rest)) = some (normalise u name)

unfoldable pub requirement_name : Unicode → Text → Option Text
unfolding match_name normalise
requirement_name u requirement = name_of u (match_name requirement)

-- `text.split(sep)`; `piece` is what was read of the current piece.
unfoldable pub split_on : ℕ → Text → Text → List Text
split_on sep piece [] = piece ∷ []
split_on sep piece (c ∷ s) =
    let cut = piece ∷ split_on sep [] s in
    let more = split_on sep (piece ++ c ∷ []) s in if nat_eq c sep then cut else more

abbrev trim_at : ℕ → Text → Text
trim_at c [] = if is_space c then [] else c ∷ []
trim_at c (d ∷ s) = c ∷ d ∷ s

unfoldable pub trim_right : Text → Text
trim_right [] = []
trim_right (c ∷ s) = trim_at c (trim_right s)

-- `part.strip()`
unfoldable pub trim : Text → Text
unfolding skip_spaces trim_right
trim s = trim_right (skip_spaces s)

abbrev add_extra : Unicode → Text → List Text → List Text
add_extra u [] extras = extras
add_extra u (c ∷ s) extras = u.lower (c ∷ s) ∷ extras

unfoldable pub extras_of : Unicode → List Text → List Text
unfolding trim
extras_of u [] = []
extras_of u (part ∷ parts) = add_extra u (trim part) (extras_of u parts)

-- The bracketed text, if its bracket closes.
abbrev bracketed : Text × Text → Option Text
bracketed (inner, []) = none
bracketed (inner, c ∷ rest) = some inner

abbrev open_bracket : Text → Option Text
open_bracket [] = none
open_bracket (c ∷ s) =
    let inner = bracketed (span (λ d. not (nat_eq d 93)) s) in if nat_eq c 91 then inner else none

abbrev after_name : Option (Text × Text) → Option Text
after_name none = none
after_name (some (name, rest)) = open_bracket (skip_spaces rest)

abbrev listed : Unicode → Option Text → List Text
listed u none = []
listed u (some inner) = extras_of u (split_on 44 [] inner)

-- The extras that a requirement asks for.
unfoldable pub requirement_extras : Unicode → Text → List Text
unfolding match_name skip_spaces span extras_of split_on
requirement_extras u requirement = listed u (after_name (match_name requirement))

-- `requirement.partition(";")[2]`
unfoldable pub marker_of : Text → Text
marker_of [] = []
marker_of (c ∷ s) = let rest = marker_of s in if nat_eq c 59 then s else rest

-- What follows a given front of a text.
unfoldable pub strip_front : Text → Text → Option Text
strip_front [] s = some s
strip_front (p ∷ front) [] = none
strip_front (p ∷ front) (c ∷ s) =
    let rest = strip_front front s in if nat_eq p c then rest else none

abbrev is_quote : ℕ → Bool
is_quote c = nat_eq c 34 || nat_eq c 39

-- `["']([^"']+)["']`
abbrev closed_quote : Text × Text → Option (Text × Text)
closed_quote ([], rest) = none
closed_quote (c ∷ inner, []) = none
closed_quote (c ∷ inner, q ∷ rest) = some (c ∷ inner, rest)

abbrev quoted : Text → Option (Text × Text)
quoted [] = none
quoted (q ∷ s) =
    let found = closed_quote (span (λ c. not (is_quote c)) s) in if is_quote q then found else none

abbrev after_equals : Option Text → Option (Text × Text)
after_equals none = none
after_equals (some s) = quoted (skip_spaces s)

abbrev after_extra : Option Text → Option (Text × Text)
after_extra none = none
after_extra (some s) = after_equals (strip_front (61 ∷ 61 ∷ []) (skip_spaces s))

-- `extra\s*==\s*["']([^"']+)["']` at the front: the name and what follows the match.
unfoldable pub match_extra : Text → Option (Text × Text)
unfolding strip_front skip_spaces span
match_extra s = after_extra (strip_front (101 ∷ 120 ∷ 116 ∷ 114 ∷ 97 ∷ []) s)

-- `_MARKER_EXTRA.findall`: `boundary` holds where no word character stands before, `skip` counts
-- the characters left of the match before.
abbrev found_extra : Unicode → Option (Text × Text) → ℕ → (ℕ → List Text) → List Text
found_extra u none here go = go 0
found_extra u (some (name, rest)) here go =
    u.lower name ∷ go (Prim.Native.Nat.◌-◌ here (length rest + 1))

unfoldable pub find_extras : Unicode → Bool → ℕ → Text → List Text
unfolding match_extra
find_extras u boundary skip [] = []
find_extras u boundary (suc skip) (c ∷ s) = find_extras u (not (u.is_word c)) skip s
find_extras u false zero (c ∷ s) = find_extras u (not (u.is_word c)) 0 s
find_extras u true zero (c ∷ s) =
    found_extra u (match_extra (c ∷ s)) (length (c ∷ s))
      (λ skip. find_extras u (not (u.is_word c)) skip s)

-- `" or " in marker`
unfoldable pub mentions : Text → Text → Bool
unfolding strip_front
mentions needle [] = elim (strip_front needle []) [ none ↦ false | some rest ↦ true ]
mentions needle (c ∷ s) = elim (strip_front needle (c ∷ s)) [
  | none ↦ mentions needle s
  | some rest ↦ true
]

abbrev judge : List Text → Text → List Text → Bool
judge [] marker wanted = false
judge (name ∷ names) marker wanted =
    if any (λ extra. contains extra wanted) (name ∷ names)
    then false
    else not (mentions (32 ∷ 111 ∷ 114 ∷ 32 ∷ []) marker)

-- Whether a requirement only serves an extra that nobody asked for.
unfoldable pub is_optional : Unicode → Text → List Text → Bool
unfolding marker_of find_extras mentions text_eq
is_optional u requirement wanted =
    let marker = marker_of requirement in judge (find_extras u true 0 marker) marker wanted
