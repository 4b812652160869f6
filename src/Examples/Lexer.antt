-- ===== src/Examples/Lexer.antt =====
-- A lexer that cuts a line at white space, for the tests.
use Prim.Native.Char.{Char, code}
use borromean_rings.Base.{
  Option, some, ◌+◌, ◌≤◌, String, ◌≡◌, refl, some, List, [], ◌∷◌, arith, Bool-cases, inl, inr,
  subst,
}
use borromean_rings.Base.Text.{is_space}
use borromean_rings.Retry.Count.{count_chars}
use borromean_rings.Words.{push_char, begins_word, split_words}
use borromean_rings.Trunk.Command.Cuts.{size, CutsOut}

abbrev pub split_all : String → Option (List String)
split_all line = some (split_words line)

push_char-size : (c : Char) (ws : List String) → size (push_char c ws) ≡ 1 + size ws
push_char-size c [] = refl
push_char-size c (w ∷ ws) = omega arith

split_words-size : (s : String) → size (split_words s) ≤ count_chars s
unfolding split_words
split_words-size String.[] = omega arith
split_words-size (String.◌∷◌ c s) =
    let shorter = split_words-size s in
    elim (Bool-cases (is_space (code c))) [
      | inl e ↦ rw e (omega (arith, shorter))
      | inr e ↦ elim (Bool-cases (begins_word s)) [
        | inl f ↦ rw (e, f) (omega (arith, shorter, push_char-size c (split_words s)))
        | inr f ↦ rw (e, f) (omega (arith, shorter))
      ]
    ]

words_of :
    (line : String) (tokens : List String)
    → some (split_words line) ≡ some tokens
    → split_words line ≡ tokens
words_of line tokens h = cc

pub split_all-CutsOut : CutsOut split_all
split_all-CutsOut line tokens h =
    subst (λ ts. size ts ≤ count_chars line) (words_of line tokens h) (split_words-size line)
