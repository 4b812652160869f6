-- ===== src/Trunk/Command/Cuts.antt =====
-- What the parts of a command are cut out of: lines, segments and the words of `sh -c` are no
-- longer than the text they come from.
use Prim.Native.Char.{Char, code}
use borromean_rings.Base.{
  some-inj, ℕ, suc, ◌+◌, ◌≤◌, ◌<◌, String, ◌≡◌, refl, ap, ◌&&◌, Option, none, some, List, [], ◌∷◌,
  ◌++◌, ◌==◌, All, elem, eq_iff, arith, Bool-cases, inl, inr, nat_eq,
}
use borromean_rings.Base.Text.{is_break}
use borromean_rings.Retry.Count.{count_chars}
use borromean_rings.Words.{push_char, begins_feed, split_lines, join_continued}
use borromean_rings.Trunk.Command.{push_segment, segments_from, after_dash_c, append_found}

-- The characters of some words together.
abbrev pub size : List String → ℕ
size [] = 0
size (w ∷ ws) = count_chars w + size ws

-- The tokens of a line are cut out of it.
abbrev pub CutsOut : (String → Option (List String)) → Type 0
CutsOut tokenize =
    (line : String) (tokens : List String)
    → tokenize line ≡ some tokens
    → size tokens ≤ count_chars line

abbrev pub AtMost : ℕ → List String → Type 0
AtMost n lines = All (λ line. count_chars line ≤ n) lines

pub weaker : (n m : ℕ) (lines : List String) → n ≤ m → AtMost n lines → AtMost m lines
weaker n m [] h a = tt
weaker n m (l ∷ lines) h (b, a) = (omega (arith, b), weaker n m lines h a)

push_char-AtMost :
    (c : Char) (n : ℕ) (lines : List String) → AtMost n lines → AtMost (suc n) (push_char c lines)
push_char-AtMost c n [] a = (omega arith, tt)
push_char-AtMost c n (l ∷ lines) (b, a) = (omega (arith, b), weaker n (suc n) lines (omega arith) a)

pub split_lines-AtMost : (s : String) → AtMost (count_chars s) (split_lines s)
unfolding split_lines
split_lines-AtMost String.[] = tt
split_lines-AtMost (String.◌∷◌ c s) =
    let a = split_lines-AtMost s in
    let b = weaker (count_chars s) (suc (count_chars s)) (split_lines s) (omega arith) a in
    elim (Bool-cases (is_break (code c))) [
      | inl e ↦ elim (Bool-cases (nat_eq (code c) 13 && begins_feed s)) [
        | inl f ↦ rw (e, f) b
        | inr f ↦ rw (e, f) (omega arith, b)
      ]
      | inr e ↦ rw e (push_char-AtMost c (count_chars s) (split_lines s) a)
    ]

join_continued-le : (s : String) → count_chars (join_continued s) ≤ count_chars s
unfolding join_continued
join_continued-le String.[] = omega arith
join_continued-le (String.◌∷◌ c String.[]) = omega arith
join_continued-le (String.◌∷◌ c (String.◌∷◌ d s)) =
    ground (arith, join_continued-le s, join_continued-le (String.◌∷◌ d s))

pub lines-AtMost : (s : String) → AtMost (count_chars s) (split_lines (join_continued s))
lines-AtMost s =
    weaker (count_chars (join_continued s)) (count_chars s) (split_lines (join_continued s))
      (join_continued-le s) (split_lines-AtMost (join_continued s))

size-append : (a b : List String) → size (a ++ b) ≡ size a + size b
size-append [] b = omega arith
size-append (w ∷ a) b = omega (arith, size-append a b)

abbrev pub Small : ℕ → List (List String) → Type 0
Small n parts = All (λ part. size part ≤ n) parts

pub smaller : (n m : ℕ) (parts : List (List String)) → n ≤ m → Small n parts → Small m parts
smaller n m [] h a = tt
smaller n m (p ∷ parts) h (b, a) = (omega (arith, b), smaller n m parts h a)

push_segment-Small :
    (n : ℕ) (part : List String) (parts : List (List String))
    → size part ≤ n
    → Small n parts
    → Small n (push_segment part parts)
push_segment-Small n [] parts h a = a
push_segment-Small n (w ∷ ws) parts h a = (h, a)

pub segments_from-Small :
    (marks part tokens : List String)
    → Small (size part + size tokens) (segments_from marks part tokens)
unfolding segments_from
segments_from-Small marks part [] = push_segment-Small (size part + 0) part [] (omega arith) tt
segments_from-Small marks part (t ∷ tokens) = elim (Bool-cases (elem t marks)) [
  | inl e ↦ rw e (
      push_segment-Small (size part + (count_chars t + size tokens)) part
        (segments_from marks [] tokens) (omega arith)
        (smaller (0 + size tokens) (size part + (count_chars t + size tokens))
          (segments_from marks [] tokens) (omega arith) (segments_from-Small marks [] tokens)))
  | inr e ↦ rw e (
      smaller (size (part ++ t ∷ []) + size tokens) (size part + (count_chars t + size tokens))
        (segments_from marks (part ++ t ∷ []) tokens) (omega (arith, size-append part (t ∷ [])))
        (segments_from-Small marks (part ++ t ∷ []) tokens))
]

pub after_dash_c-lt :
    (segment : List String) (command : String)
    → after_dash_c segment ≡ some command
    → count_chars command < size segment
unfolding after_dash_c
after_dash_c-lt [] command h = cc
after_dash_c-lt (t ∷ []) command h = cc
after_dash_c-lt (t ∷ next ∷ segment) command h = elim (Bool-cases (t == "-c")) [
  | inl e ↦
      let same : next ≡ command = some-inj next command (rw e at h) in
      let dash : count_chars t ≡ 2 = ap count_chars ((eq_iff t "-c").0 e) in
      omega (arith, dash, ap count_chars same)
  | inr e ↦ omega (arith, after_dash_c-lt (next ∷ segment) command (rw e at h))
]

abbrev pub IsFound {ℓ} : {A : Type ℓ} → Option (List A) → Type ℓ
IsFound {A = A} r = (found : List A) × (r ≡ some found)

pub append-IsFound {ℓ} :
    {A : Type ℓ} (a b : Option (List A)) → IsFound a → IsFound b → IsFound (append_found a b)
append-IsFound none b (x, e) f = cc
append-IsFound (some x) none e (y, f) = cc
append-IsFound (some x) (some y) e f = (x ++ y, refl)
