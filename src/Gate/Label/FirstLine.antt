-- ===== src/Gate/Label/FirstLine.antt =====
-- The first line of a summary: it is not blank, it is one line, and it stands in the summary.
use Prim.Native.Char.{Char, code}
use borromean_rings.Base.{
  ℕ, String, ◌≡◌, ◌≢◌, refl, sym, ◌∙◌, ap, Bool, true, false, not, ◌||◌, ◌&&◌, some, List, [], ◌∷◌,
  ◌==◌, arith, Bool-cases, inl, inr, nat_eq, eq_iff,
}
use borromean_rings.Base.Text.{is_space, is_break}
use borromean_rings.Base.Decimal.{strip, strip_left, strip_right, keep_right}
use borromean_rings.Words.Glued.{glue_assoc}
use borromean_rings.Words.{split_lines, push_char, glue}
use borromean_rings.Gate.Label.{first_of, first_line}

-- A text with a character that is no white space.
abbrev pub is_visible : String → Bool
is_visible String.[] = false
is_visible (String.◌∷◌ c s) = not (is_space (code c)) || is_visible s

abbrev pub has_break : String → Bool
has_break String.[] = false
has_break (String.◌∷◌ c s) = is_break (code c) || has_break s

-- A text that begins with a character that is no white space.
abbrev pub Begins : String → Type 0
Begins s = (c : Char) × (r : String) × (s ≡ String.◌∷◌ c r) × (is_space (code c) ≡ false)

break_is_space : (n : ℕ) → is_space n ≡ false → is_break n ≡ false
unfolding is_space is_break
break_is_space n h = ground arith

strip_left-Begins : (s : String) → is_visible s ≡ true → Begins (strip_left s)
unfolding strip_left
strip_left-Begins String.[] h = cc
strip_left-Begins (String.◌∷◌ c s) h = elim (Bool-cases (is_space (code c))) [
  | inl e ↦ rw e (strip_left-Begins s (rw e at h))
  | inr e ↦ rw e (c, s, refl, e)
]

strip_left-blank : (s : String) → is_visible s ≡ false → strip_left s ≡ ""
unfolding strip_left
strip_left-blank String.[] h = refl
strip_left-blank (String.◌∷◌ c s) h = ground (arith, strip_left-blank s)

kept_front : (c : Char) (s : String) → is_space (code c) ≡ false → Begins (keep_right c s)
kept_front c String.[] e = rw e (c, "", refl, e)
kept_front c (String.◌∷◌ d s) e = (c, String.◌∷◌ d s, refl, e)

strip_right-Begins : (s : String) → Begins s → Begins (strip_right s)
unfolding strip_right
strip_right-Begins s (c, r, q, e) = rw q (kept_front c (strip_right r) e)

strip-Begins : (s : String) → is_visible s ≡ true → Begins (strip s)
unfolding strip
strip-Begins s h = strip_right-Begins (strip_left s) (strip_left-Begins s h)

strip-blank : (s : String) → is_visible s ≡ false → strip s ≡ ""
unfolding strip strip_right
strip-blank s h = rw (strip_left-blank s h) refl

-- Stripping leaves no line break where there was none.
strip_left-one_line : (s : String) → has_break s ≡ false → has_break (strip_left s) ≡ false
unfolding strip_left
strip_left-one_line String.[] h = refl
strip_left-one_line (String.◌∷◌ c s) h = ground (arith, strip_left-one_line s)

kept_one_line :
    (c : Char) (s : String)
    → is_break (code c) ≡ false
    → has_break s ≡ false
    → has_break (keep_right c s) ≡ false
kept_one_line c String.[] e h = elim (Bool-cases (is_space (code c))) [
  | inl f ↦ rw f refl
  | inr f ↦ rw f (ground arith)
]
kept_one_line c (String.◌∷◌ d s) e h = ground arith

strip_right-one_line : (s : String) → has_break s ≡ false → has_break (strip_right s) ≡ false
unfolding strip_right
strip_right-one_line String.[] h = refl
strip_right-one_line (String.◌∷◌ c s) h =
    kept_one_line c (strip_right s) (ground arith) (strip_right-one_line s (ground arith))

strip-one_line : (s : String) → has_break s ≡ false → has_break (strip s) ≡ false
unfolding strip
strip-one_line s h = strip_right-one_line (strip_left s) (strip_left-one_line s h)

-- A text that stands at the front of another, and one that stands somewhere in it.
abbrev pub IsFront : String → String → Type 0
IsFront p s = (after : String) × (s ≡ glue p after)

abbrev pub IsPart : String → String → Type 0
IsPart p s = (before after : String) × (s ≡ glue before (glue p after))

pub IsFront-trans : (p q s : String) → IsFront p q → IsFront q s → IsFront p s
IsFront-trans p q s (a, e) (b, f) = (glue a b, f ∙ ap (λ x. glue x b) e ∙ glue_assoc p a b)

pub IsPart-front : (p q s : String) → IsFront p q → IsPart q s → IsPart p s
IsPart-front p q s (a, e) (x, b, f) =
    (x, glue a b, f ∙ ap (λ y. glue x (glue y b)) e ∙ ap (glue x) (glue_assoc p a b))

strip_left-behind : (s : String) → (before : String) × (s ≡ glue before (strip_left s))
unfolding strip_left
strip_left-behind String.[] = ("", refl)
strip_left-behind (String.◌∷◌ c s) = elim (Bool-cases (is_space (code c))) [
  | inl e ↦ let (b, f) = strip_left-behind s in rw e (String.◌∷◌ c b, ap (String.◌∷◌ c) f)
  | inr e ↦ rw e ("", refl)
]

kept_IsFront : (c : Char) (s t : String) → IsFront t s → IsFront (keep_right c t) (String.◌∷◌ c s)
kept_IsFront c s String.[] (a, e) = elim (Bool-cases (is_space (code c))) [
  | inl f ↦ rw f (String.◌∷◌ c s, refl)
  | inr f ↦ rw f (s, refl)
]
kept_IsFront c s (String.◌∷◌ d t) (a, e) = (a, ap (String.◌∷◌ c) e)

strip_right-IsFront : (s : String) → IsFront (strip_right s) s
unfolding strip_right
strip_right-IsFront String.[] = ("", refl)
strip_right-IsFront (String.◌∷◌ c s) = kept_IsFront c s (strip_right s) (strip_right-IsFront s)

abbrev FirstIsFront : List String → String → Type 0
FirstIsFront [] s = Unit
FirstIsFront (line ∷ lines) s = IsFront line s

pushed_IsFront :
    (c : Char) (lines : List String) (s : String)
    → FirstIsFront lines s
    → FirstIsFront (push_char c lines) (String.◌∷◌ c s)
pushed_IsFront c [] s h = (s, refl)
pushed_IsFront c (line ∷ lines) s (a, e) = (a, ap (String.◌∷◌ c) e)

nothing_IsFront : (s : String) (lines : List String) → FirstIsFront ("" ∷ lines) s
nothing_IsFront s lines = (s, refl)

after_feed :
    (c : Char) (s : String) → code c ≡ 10 → split_lines (String.◌∷◌ c s) ≡ "" ∷ split_lines s
unfolding split_lines is_break
after_feed c s e = rw e refl

behind_break :
    (c : Char) (s : String)
    → is_break (code c) ≡ true
    → (more : List String) × (split_lines (String.◌∷◌ c s) ≡ "" ∷ more)
unfolding split_lines
behind_break c String.[] e = elim (Bool-cases (nat_eq (code c) 13)) [
  | inl f ↦ rw (e, f) ([], refl)
  | inr f ↦ rw (e, f) ([], refl)
]
behind_break c (String.◌∷◌ d s) e = elim (Bool-cases (nat_eq (code c) 13 && nat_eq (code d) 10)) [
  | inl f ↦ rw (e, f) (split_lines s, after_feed d s (ground arith))
  | inr f ↦ rw (e, f) (split_lines (String.◌∷◌ d s), refl)
]

split_lines-IsFront : (s : String) → FirstIsFront (split_lines s) s
unfolding split_lines
split_lines-IsFront String.[] = tt
split_lines-IsFront (String.◌∷◌ c s) = elim (Bool-cases (is_break (code c))) [
  | inl e ↦ let (more, f) = behind_break c s e in rw f (nothing_IsFront (String.◌∷◌ c s) more)
  | inr e ↦ rw e (pushed_IsFront c (split_lines s) s (split_lines-IsFront s))
]

-- The first line of a text is no more than a line.
abbrev first_has_break : List String → Bool
first_has_break [] = false
first_has_break (line ∷ lines) = has_break line

pushed_one_line :
    (c : Char) (lines : List String)
    → is_break (code c) ≡ false
    → first_has_break lines ≡ false
    → first_has_break (push_char c lines) ≡ false
pushed_one_line c [] e h = ground arith
pushed_one_line c (line ∷ lines) e h = ground arith

split_lines-one_line : (s : String) → first_has_break (split_lines s) ≡ false
unfolding split_lines
split_lines-one_line String.[] = refl
split_lines-one_line (String.◌∷◌ c s) =
    ground (arith, split_lines-one_line s, pushed_one_line c (split_lines s))

pushed :
    (c : Char) (lines : List String)
    → (r : String) × (more : List String) × (push_char c lines ≡ String.◌∷◌ c r ∷ more)
pushed c [] = ("", [], refl)
pushed c (line ∷ lines) = (line, lines, refl)

split_lines-first :
    (c : Char) (s : String)
    → is_break (code c) ≡ false
    → (r : String) × (more : List String) × (split_lines (String.◌∷◌ c s) ≡ String.◌∷◌ c r ∷ more)
unfolding split_lines
split_lines-first c s e = rw e (pushed c (split_lines s))

stripped_Begins :
    (c : Char) (s : String) → is_space (code c) ≡ false → Begins (strip (String.◌∷◌ c s))
stripped_Begins c s e = strip-Begins (String.◌∷◌ c s) (rw e refl)

line_clean :
    (lines : List String) (line : String) (more : List String)
    → lines ≡ line ∷ more
    → first_has_break lines ≡ false
    → has_break line ≡ false
line_clean lines line more e h = rw e at h

pub not_empty : (c : Char) (s : String) → String.◌∷◌ c s ≢ ""
not_empty c s h = cc

pub not_equal_empty : (s : String) → s ≢ "" → (s == "") ≡ false
not_equal_empty s h = elim (Bool-cases (s == "")) [
  | inl e ↦ absurd (h ((eq_iff s "").0 e))
  | inr e ↦ e
]

first_of_line :
    (c : Char) (s line : String) (more : List String)
    → split_lines (String.◌∷◌ c s) ≡ line ∷ more
    → first_of (String.◌∷◌ c s) ≡ some (strip line)
first_of_line c s line more h = rw (not_equal_empty (String.◌∷◌ c s) (not_empty c s), h) refl

glue_nil : (s : String) → glue s "" ≡ s
glue_nil String.[] = refl
glue_nil (String.◌∷◌ c s) = ap (String.◌∷◌ c) (glue_nil s)

strip-IsPart : (s : String) → IsPart (strip s) s
unfolding strip
strip-IsPart s =
    let (before, e) = strip_left-behind s in
    IsPart-front (strip_right (strip_left s)) (strip_left s) s (strip_right-IsFront (strip_left s))
      (before, "", e ∙ ap (glue before) (sym (glue_nil (strip_left s))))

strip-IsFront :
    (c : Char) (s : String)
    → is_space (code c) ≡ false
    → IsFront (strip (String.◌∷◌ c s)) (String.◌∷◌ c s)
unfolding strip strip_left
strip-IsFront c s e = rw e (strip_right-IsFront (String.◌∷◌ c s))

line_IsFront : (s line : String) (more : List String) → split_lines s ≡ line ∷ more → IsFront line s
line_IsFront s line more e = let front = split_lines-IsFront s in rw e at front

pub first_line-shown :
    (summary : String)
    → is_visible summary ≡ true
    → (line : String) × (first_line summary ≡ some line)
      × Begins line
      × (has_break line ≡ false)
      × IsPart line summary
unfolding first_line
first_line-shown summary h =
    let (c, r, q, e) = strip-Begins summary h in
    let (l, more, f) = split_lines-first c r (break_is_space (code c) e) in
    let line = String.◌∷◌ c l in
    let text = String.◌∷◌ c r in
    let front = line_IsFront text line more f in
    let whole = strip-IsPart summary in
    (
      strip line,
      rw q (first_of_line c r line more f),
      stripped_Begins c l e,
      strip-one_line line (line_clean (split_lines text) line more f (split_lines-one_line text)),
      IsPart-front (strip line) text summary
          (IsFront-trans (strip line) line text (strip-IsFront c l e) front) (rw q at whole),
    )

pub first_line-blank :
    (summary : String) → is_visible summary ≡ false → first_line summary ≡ some ""
unfolding first_line
first_line-blank summary h = rw (strip-blank summary h) refl
