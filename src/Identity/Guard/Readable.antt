-- ===== src/Identity/Guard/Readable.antt =====
-- What the guard on a command's own overrides decides on a command whose lines can all be read.
use borromean_rings.Base.{
  String, ◌≡◌, refl, sym, ap, Bool, false, some, List, [], ◌∷◌, ◌++◌, ◌==◌, All, elem, keep,
  Bool-cases, inl, inr, if◌then◌else◌,
}
use borromean_rings.Retry.Count.{count_chars}
use borromean_rings.Ledger.Streak.{keep-append}
use borromean_rings.Identity.{Identity}
use borromean_rings.Identity.Command.{
  Lexer, Found, head_name, from_head, shells, split_segments, logical_lines, in_segment,
  invocations_in_line, invocations_in_lines, invocations_at, or_nothing, git_invocations,
}

-- A segment of a line that runs git, and one that runs a shell, by the name of its command word.
abbrev pub head_is : (String → Bool) → List String → Bool
head_is p [] = false
head_is p (word ∷ words) = p (head_name word)

abbrev pub runs_git : List String → Bool
runs_git segment = head_is (λ h. h == "git") (from_head segment)

abbrev pub runs_shell : List String → Bool
runs_shell segment = head_is (λ h. elem h shells) (from_head segment)

-- The segments of lines that were lexed.
abbrev pub segments_of : List (List String) → List (List String)
segments_of [] = []
segments_of (tokens ∷ lines) = split_segments tokens ++ segments_of lines

-- Each of the lines is lexed.
abbrev pub AreLexed : Lexer → List String → List (List String) → Type 0
AreLexed lexer [] [] = Unit
AreLexed lexer (line ∷ lines) (tokens ∷ lexed) =
    (lexer.tokenize line ≡ some tokens) × AreLexed lexer lines lexed
AreLexed lexer lines lexed = ⊥

All-left {ℓ κ} :
    {A : Type ℓ} (P : A → Type κ) (xs ys : List A) → All P (xs ++ ys) → All P xs × All P ys
All-left P [] ys h = (tt, h)
All-left P (x ∷ xs) ys h = let (a, b) = All-left P xs ys h.1 in ((h.0, a), b)

module _ (lexer : Lexer) (nested : String → Found) where
  head_found :
      (segment words : List String)
      → head_is (λ h. elem h shells) words ≡ false
      → in_segment lexer nested segment words
        ≡ some (if head_is (λ h. h == "git") words then segment ∷ [] else [])
  head_found segment [] h = refl
  head_found segment (word ∷ words) h = elim (Bool-cases (head_name word == "git")) [
    | inl e ↦ rw e refl
    | inr e ↦ rw (e, h) refl
  ]

  line_found :
      (segments : List (List String))
      → All (λ s. runs_shell s ≡ false) segments
      → invocations_in_line lexer nested segments ≡ some (keep runs_git segments)
  unfolding invocations_in_line
  line_found [] h = refl
  line_found (segment ∷ segments) h =
      rw (head_found segment (from_head segment) h.0, line_found segments h.1)
        (elim (Bool-cases (runs_git segment)) [ inl e ↦ rw e refl | inr e ↦ rw e refl ])

  lines_found :
      (lines : List String) (lexed : List (List String))
      → AreLexed lexer lines lexed
      → All (λ s. runs_shell s ≡ false) (segments_of lexed)
      → invocations_in_lines lexer nested lines ≡ some (keep runs_git (segments_of lexed))
  unfolding invocations_in_lines
  lines_found [] [] a h = refl
  lines_found [] (tokens ∷ lexed) a h = elim a [ ]
  lines_found (line ∷ lines) [] a h = elim a [ ]
  lines_found (line ∷ lines) (tokens ∷ lexed) (e, a) h =
      let (now, later) =
        All-left (λ s. runs_shell s ≡ false) (split_segments tokens) (segments_of lexed) h in
      rw (e, line_found (split_segments tokens) now, lines_found lines lexed a later)
        (ap some (sym (keep-append runs_git (split_segments tokens) (segments_of lexed))))

segments_found :
    (lexer : Lexer) (command : String) (lexed : List (List String))
    → AreLexed lexer (logical_lines command) lexed
    → All (λ s. runs_shell s ≡ false) (segments_of lexed)
    → git_invocations lexer command ≡ keep runs_git (segments_of lexed)
unfolding git_invocations invocations_at
segments_found lexer command lexed a h = ap or_nothing (
    lines_found lexer (invocations_at lexer (count_chars command)) (logical_lines command) lexed a
      h)
