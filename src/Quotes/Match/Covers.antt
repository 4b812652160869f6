-- ===== src/Quotes/Match/Covers.antt =====
-- Where a quotation of several lines is verbatim in a span.
use Prim.Native.Char.{code}
use mathlib.Core.Bool.{false≢true}
use borromean_rings.Base.{
  ℕ, String, ◌≡◌, ◌≢◌, refl, sym, ap, ◌∙◌, ◌↔◌, Bool, true, false, not, ◌&&◌, Option, none, some,
  List, [], ◌∷◌, ◌++◌, ◌==◌, eq_iff, eq_refl, arith, Bool-cases, Option-cases, inl, inr,
}
use borromean_rings.Words.{cut_front, glue}
use borromean_rings.Words.Glued.{cut_front-glue}
use borromean_rings.Quotes.{Reader}
use borromean_rings.Quotes.Match.{
  normalise_lines, first_code, last_code, joins, ends_line_from, ends_line, starts_line, follows,
  covers, match_lines, matches,
}
use borromean_rings.Quotes.Match.Occurs.{
  cut_front-back, last_after, shifted, or_true, normalise_lines-filled, negated,
}

when : (a b : Bool) → (a && not b) ≡ true → (a ≡ true) × (b ≡ false)
when a b h = ground arith

both : (a b : Bool) → (a && b) ≡ true → (a ≡ true) × (b ≡ true)
both a b h = ground arith

module _ (reader : Reader) where
  -- A line ends in the text, and no word of the line goes on into it.
  abbrev pub EndsAfter : Option ℕ → String → String → Type 0
  EndsAfter before n line =
      (a : String) × (line ≡ glue a n) × (joins reader (last_after before a) (first_code n) ≡ false)

  abbrev pub EndsIn : String → String → Type 0
  EndsIn n line = EndsAfter none n line

  -- A line starts with the text, and no word of the text goes on in the line.
  abbrev pub StartsWith : String → String → Type 0
  StartsWith n line =
      (b : String) × (line ≡ glue n b) × (joins reader (last_code n) (first_code b) ≡ false)

  ends_line-EndsAfter :
      (before : Option ℕ) (n line : String)
      → ends_line_from reader before n line ≡ true
      → EndsAfter before n line
  unfolding ends_line_from
  ends_line-EndsAfter before n String.[] h = cc
  ends_line-EndsAfter before n (String.◌∷◌ c s) h =
      elim (Bool-cases (String.◌∷◌ c s == n && not (joins reader before (some (code c))))) [
        | inl e ↦
            let (x, y) = when _ _ e in
            let at : String.◌∷◌ c s ≡ n = (eq_iff (String.◌∷◌ c s) n).0 x in
            ("", at, ap (λ t. joins reader before (first_code t)) (sym at) ∙ y)
        | inr e ↦
            let (a, at, x) = ends_line-EndsAfter (some (code c)) n s (rw e at h) in
            (String.◌∷◌ c a, ap (String.◌∷◌ c) at, rw (sym (shifted before c a)) x)
      ]

  EndsAfter-ends_line :
      (before : Option ℕ) (n a : String)
      → n ≢ ""
      → joins reader (last_after before a) (first_code n) ≡ false
      → ends_line_from reader before n (glue a n) ≡ true
  unfolding ends_line_from
  EndsAfter-ends_line before String.[] String.[] filled x = elim (filled refl) [ ]
  EndsAfter-ends_line before (String.◌∷◌ c n) String.[] filled x =
      rw (eq_refl (String.◌∷◌ c n), x) refl
  EndsAfter-ends_line before n (String.◌∷◌ c a) filled x =
      rw (EndsAfter-ends_line (some (code c)) n a filled (rw (shifted before c a) x)) (or_true _)

  ends_line-EndsIn : (n line : String) → n ≢ "" → (ends_line reader n line ≡ true) ↔ EndsIn n line
  ends_line-EndsIn n line filled = (
    ends_line-EndsAfter none n line,
    λ (a, at, x). ap (ends_line reader n) at ∙ EndsAfter-ends_line none n a filled x,
  )

  starts_line-StartsWith :
      (n line : String) → (starts_line reader n line ≡ true) ↔ StartsWith n line
  starts_line-StartsWith n line = (
    λ h. elim (Option-cases (cut_front line n)) [
      | inl e ↦ elim (false≢true (rw e at h)) [ ]
      | inr (b, e) ↦ (b, cut_front-back line n b e, negated _ (rw e at h))
    ],
    λ (b, at, x). ap (starts_line reader n) at ∙ rw (cut_front-glue n b, x) refl,
  )

  -- Lines begin with equal ones, and a last text starts the line after them.
  abbrev pub FollowedBy : List String → List String → Type 0
  FollowedBy others hay =
      (mid : List String) × (last : String) × (line : String) × (rest : List String) × (others
        ≡ mid ++ last ∷ [])
      × (hay ≡ mid ++ line ∷ rest)
      × StartsWith last line

  follows-FollowedBy :
      (m : String) (ns hay : List String)
      → follows reader (m ∷ ns) hay ≡ true
      → FollowedBy (m ∷ ns) hay
  unfolding follows
  follows-FollowedBy m [] [] h = cc
  follows-FollowedBy m [] (line ∷ hay) h =
      ([], m, line, hay, refl, refl, (starts_line-StartsWith m line).0 h)
  follows-FollowedBy m (n ∷ ns) [] h = cc
  follows-FollowedBy m (n ∷ ns) (line ∷ hay) h =
      let (e, f) = both (line == m) _ h in
      let (mid, last, l, rest, x, y, z) = follows-FollowedBy n ns hay f in
      (m ∷ mid, last, l, rest, ap (◌∷◌ m) x, rw ((eq_iff line m).0 e, y) refl, z)

  FollowedBy-follows :
      (mid : List String) (last line : String) (rest : List String)
      → StartsWith last line
      → follows reader (mid ++ last ∷ []) (mid ++ line ∷ rest) ≡ true
  unfolding follows
  FollowedBy-follows [] last line rest z = (starts_line-StartsWith last line).1 z
  FollowedBy-follows (m ∷ []) last line rest z =
      rw (eq_refl m) ((starts_line-StartsWith last line).1 z)
  FollowedBy-follows (m ∷ n ∷ mid) last line rest z =
      rw (eq_refl m) (FollowedBy-follows (n ∷ mid) last line rest z)

  FollowedBy-iff :
      (m : String) (ns hay : List String)
      → (follows reader (m ∷ ns) hay ≡ true) ↔ FollowedBy (m ∷ ns) hay
  FollowedBy-iff m ns hay = (
    follows-FollowedBy m ns hay,
    λ (mid, last, line, rest, x, y, z). rw (x, y) (FollowedBy-follows mid last line rest z),
  )

  -- Somewhere in the lines one ends in the first text, and the other texts follow it.
  abbrev pub Covers : String → List String → List String → Type 0
  Covers n others hay =
      (pre : List String) × (line : String) × (rest : List String) × (hay ≡ pre ++ line ∷ rest)
      × EndsIn n line
      × FollowedBy others rest

  covers-Covers :
      (n m : String) (ns hay : List String)
      → n ≢ ""
      → covers reader n (m ∷ ns) hay ≡ true
      → Covers n (m ∷ ns) hay
  unfolding covers
  covers-Covers n m ns [] filled h = cc
  covers-Covers n m ns (line ∷ hay) filled h =
      elim (Bool-cases (ends_line reader n line && follows reader (m ∷ ns) hay)) [
        | inl e ↦
            let (x, y) = both (ends_line reader n line) _ e in
            (
              [],
              line,
              hay,
              refl,
              (ends_line-EndsIn n line filled).0 x,
              (FollowedBy-iff m ns hay).0 y,
            )
        | inr e ↦
            let (pre, l, rest, at, x, y) = covers-Covers n m ns hay filled (rw e at h) in
            (line ∷ pre, l, rest, ap (◌∷◌ line) at, x, y)
      ]

  Covers-covers :
      (n m : String) (ns pre : List String) (line : String) (rest : List String)
      → n ≢ ""
      → EndsIn n line
      → FollowedBy (m ∷ ns) rest
      → covers reader n (m ∷ ns) (pre ++ line ∷ rest) ≡ true
  unfolding covers
  Covers-covers n m ns [] line rest filled x y =
      rw ((ends_line-EndsIn n line filled).1 x, (FollowedBy-iff m ns rest).1 y) refl
  Covers-covers n m ns (p ∷ pre) line rest filled x y =
      rw (Covers-covers n m ns pre line rest filled x y) (or_true _)

  -- A quotation of several lines, once normalised, is verbatim in a span exactly when it covers a
  -- run of the span's normalised lines: the first text is the end of its line, the last one the
  -- start of its line, those between are equal, and no word is cut at either end.
  pub matches-Covers :
      (quote span n m : String) (ns : List String)
      → normalise_lines quote ≡ n ∷ m ∷ ns
      → (matches reader quote span ≡ true) ↔ Covers n (m ∷ ns) (normalise_lines span)
  unfolding matches match_lines
  matches-Covers quote span n m ns h =
      let filled = normalise_lines-filled quote n (m ∷ ns) h in
      rw h (
        covers-Covers n m ns (normalise_lines span) filled,
        λ (pre, line, rest, at, x, y).
            ap (covers reader n (m ∷ ns)) at ∙ Covers-covers n m ns pre line rest filled x y,
      )
