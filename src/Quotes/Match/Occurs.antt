-- ===== src/Quotes/Match/Occurs.antt =====
-- Where a quotation of one line is verbatim in a span.
use Prim.Native.Char.{Char, code}
use mathlib.Core.Bool.{false≢true}
use text.Mathlib.TextEquality.{Char-path}
use borromean_rings.Base.{
  ℕ, String, ◌≡◌, ◌≢◌, refl, sym, ap, ◌∙◌, ◌↔◌, Bool, true, false, not, ◌||◌, ◌&&◌, Option, none,
  some, List, [], ◌∷◌, any, ◌==◌, elem, eq_iff, eq_refl, nat_eq, nat_eq_iff, arith, Bool-cases,
  Option-cases, some-inj, inl, inr,
}
use borromean_rings.Words.{join_with, cut_front, glue, split_words, split_lines}
use borromean_rings.Words.Glued.{cut_front-glue}
use borromean_rings.Base.Decimal.{strip}
use borromean_rings.Quotes.{Reader}
use borromean_rings.Quotes.Match.{
  collapsed, strip_ends, straighten, normalise_lines, first_code, last_code, joins, stands_at,
  within_from, within_line, match_lines, matches,
}

pub nothing : {r : String} → none ≡ some r → ⊥
nothing h = cc

pub cut_front-back : (s p r : String) → cut_front s p ≡ some r → s ≡ glue p r
unfolding cut_front
cut_front-back s String.[] r h = some-inj s r h
cut_front-back String.[] (String.◌∷◌ q p) r h = cc
cut_front-back (String.◌∷◌ c s) (String.◌∷◌ q p) r h =
    elim (Bool-cases (nat_eq (code c) (code q))) [
      | inl e ↦
          let same : c ≡ q = Char-path c q ((nat_eq_iff (code c) (code q)).0 e) in
          rw (same, cut_front-back s p r (rw e at h)) refl
      | inr e ↦ elim (nothing (rw e at h)) [ ]
    ]

-- The character in front of what follows `a`, where `before` stands in front of `a`.
abbrev pub last_after : Option ℕ → String → Option ℕ
last_after before String.[] = before
last_after before (String.◌∷◌ c a) = last_code (String.◌∷◌ c a)

pub shifted :
    (before : Option ℕ) (c : Char) (a : String)
    → last_after (some (code c)) a ≡ last_after before (String.◌∷◌ c a)
unfolding last_code
shifted before c String.[] = refl
shifted before c (String.◌∷◌ d a) = refl

first_code-glue : (n b : String) → n ≢ "" → first_code (glue n b) ≡ first_code n
first_code-glue String.[] b h = elim (h refl) [ ]
first_code-glue (String.◌∷◌ c n) b h = refl

both : (a b : Bool) → (not a && b) ≡ true → (a ≡ false) × (b ≡ true)
both a b h = ground arith

pub negated : (a : Bool) → not a ≡ true → a ≡ false
negated a h = ground arith

pub or_true : (a : Bool) → (a || true) ≡ true
or_true a = ground arith

same_head : (a b : String) (xs ys : List String) → a ∷ xs ≡ b ∷ ys → a ≡ b
same_head a b xs ys h = cc

collapsed-filled :
    (raw : List String) (n : String) (lines : List String) → collapsed raw ≡ n ∷ lines → n ≢ ""
unfolding collapsed
collapsed-filled [] n lines h = cc
collapsed-filled (r ∷ raw) n lines h =
    let line = join_with " " (split_words r) in
    elim (Bool-cases (line == "")) [
      | inl e ↦ collapsed-filled raw n lines (rw e at h)
      | inr e ↦
          λ k. false≢true (sym e ∙ (eq_iff line "").1 (same_head line n _ lines (rw e at h) ∙ k))
    ]

pub normalise_lines-filled :
    (text n : String) (lines : List String) → normalise_lines text ≡ n ∷ lines → n ≢ ""
unfolding normalise_lines
normalise_lines-filled text n lines h =
    collapsed-filled (split_lines (strip_ends (strip (straighten text)))) n lines h

module _ (reader : Reader) where
  -- The needle stands somewhere in a line, and no word of the line goes on at its ends.
  abbrev pub OccursAfter : Option ℕ → String → String → Type 0
  OccursAfter before needle hay =
      (a : String) × (b : String) × (hay ≡ glue a (glue needle b))
      × (joins reader (last_after before a) (first_code needle) ≡ false)
      × (joins reader (last_code needle) (first_code b) ≡ false)

  abbrev pub Occurs : String → String → Type 0
  Occurs needle hay = OccursAfter none needle hay

  stands_at-Occurs :
      (before : Option ℕ) (needle hay : String)
      → needle ≢ ""
      → stands_at reader before needle hay ≡ true
      → OccursAfter before needle hay
  stands_at-Occurs before needle hay filled h = elim (Option-cases (cut_front hay needle)) [
    | inl e ↦ elim (false≢true ((both _ _ (rw e at h)).1)) [ ]
    | inr (b, e) ↦
        let (x, y) = both (joins reader before (first_code hay)) _ (rw e at h) in
        let at = cut_front-back hay needle b e in
        (
          "",
          b,
          at,
          ap (joins reader before) (sym (ap first_code at ∙ first_code-glue needle b filled)) ∙ x,
          negated _ y,
        )
  ]

  Occurs-stands_at :
      (before : Option ℕ) (needle b : String)
      → needle ≢ ""
      → joins reader before (first_code needle) ≡ false
      → joins reader (last_code needle) (first_code b) ≡ false
      → stands_at reader before needle (glue needle b) ≡ true
  Occurs-stands_at before needle b filled x y =
      rw (first_code-glue needle b filled, x, cut_front-glue needle b, y) refl

  within_from-Occurs :
      (before : Option ℕ) (needle hay : String)
      → needle ≢ ""
      → within_from reader before needle hay ≡ true
      → OccursAfter before needle hay
  unfolding within_from
  within_from-Occurs before needle String.[] filled h = cc
  within_from-Occurs before needle (String.◌∷◌ c s) filled h =
      elim (Bool-cases (stands_at reader before needle (String.◌∷◌ c s))) [
        | inl e ↦ stands_at-Occurs before needle (String.◌∷◌ c s) filled e
        | inr e ↦
            let (a, b, at, x, y) = within_from-Occurs (some (code c)) needle s filled (rw e at h) in
            (String.◌∷◌ c a, b, ap (String.◌∷◌ c) at, rw (sym (shifted before c a)) x, y)
      ]

  Occurs-within_from :
      (before : Option ℕ) (needle a b : String)
      → needle ≢ ""
      → joins reader (last_after before a) (first_code needle) ≡ false
      → joins reader (last_code needle) (first_code b) ≡ false
      → within_from reader before needle (glue a (glue needle b)) ≡ true
  unfolding within_from
  Occurs-within_from before String.[] String.[] b filled x y = elim (filled refl) [ ]
  Occurs-within_from before (String.◌∷◌ n needle) String.[] b filled x y =
      rw (Occurs-stands_at before (String.◌∷◌ n needle) b filled x y) refl
  Occurs-within_from before needle (String.◌∷◌ c a) b filled x y =
      rw (Occurs-within_from (some (code c)) needle a b filled (rw (shifted before c a) x) y)
        (or_true (stands_at reader before needle (String.◌∷◌ c (glue a (glue needle b)))))

  within_line-Occurs :
      (needle hay : String)
      → needle ≢ ""
      → (within_line reader needle hay ≡ true) ↔ Occurs needle hay
  within_line-Occurs needle hay filled = (
    within_from-Occurs none needle hay filled,
    λ (a, b, at, x, y).
        ap (within_line reader needle) at ∙ Occurs-within_from none needle a b filled x y,
  )

  -- Some line of a span has the needle.
  abbrev pub OccursIn : String → List String → Type 0
  OccursIn needle lines = (line : String) × (elem line lines ≡ true) × Occurs needle line

  any-OccursIn :
      (needle : String) (lines : List String)
      → needle ≢ ""
      → (any (within_line reader needle) lines ≡ true) ↔ OccursIn needle lines
  any-OccursIn needle [] filled = (λ h. cc, λ (l, h, o). cc)
  any-OccursIn needle (line ∷ lines) filled =
      let (to, from) = any-OccursIn needle lines filled in
      let (one, one') = within_line-Occurs needle line filled in
      (
        λ h. elim (Bool-cases (within_line reader needle line)) [
          | inl e ↦ (line, rw (eq_refl line) refl, one e)
          | inr e ↦ let (l, m, o) = to (rw e at h) in (l, rw m (or_true (l == line)), o)
        ],
        λ (l, m, o). elim (Bool-cases (l == line)) [
          | inl e ↦ rw (one' (rw ((eq_iff l line).0 e) at o)) refl
          | inr e ↦ rw (from (l, rw e at m, o)) (or_true (within_line reader needle line))
        ],
      )

  -- A quotation of one line, once normalised, is verbatim in a span exactly when it stands in one
  -- of the span's normalised lines, with no alphanumeric character next to it that would go on the
  -- word it begins or ends with.
  pub matches-OccursIn :
      (quote span needle : String)
      → normalise_lines quote ≡ needle ∷ []
      → (matches reader quote span ≡ true) ↔ OccursIn needle (normalise_lines span)
  unfolding matches match_lines
  matches-OccursIn quote span needle h =
      rw h (any-OccursIn needle (normalise_lines span) (normalise_lines-filled quote needle [] h))
