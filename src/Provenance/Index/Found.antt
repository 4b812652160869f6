-- ===== src/Provenance/Index/Found.antt =====
-- What is found in the index of the sources.
use borromean_rings.Base.{
  ℕ, String, ◌≡◌, refl, sym, ◌∙◌, ap, ◌↔◌, inl, inr, true, false, List, [], ◌∷◌, ◌++◌, ◌==◌, any,
  All, eq_iff, eq_refl, Bool-cases,
}
use mathlib.Core.Bool.{false≢true}
use borromean_rings.Provenance.Shingles.{Words, Letters, Shingle, shingles, words_eq}
use borromean_rings.Provenance.Index.{
  Hits, Index, set_default, add_hit, index_shingles, Texts, source_index, hits_at,
}

words_eq-path : (a b : Words) → words_eq a b ≡ true → a ≡ b
unfolding words_eq
words_eq-path [] [] h = refl
words_eq-path [] (w ∷ ws) h = cc
words_eq-path (v ∷ vs) [] h = cc
words_eq-path (v ∷ vs) (w ∷ ws) h = elim (Bool-cases (v == w)) [
  | inl e ↦ rw ((eq_iff v w).0 e, words_eq-path vs ws (rw e at h)) refl
  | inr e ↦ elim (false≢true (rw e at h)) [ ]
]

words_eq_refl : (a : Words) → words_eq a a ≡ true
unfolding words_eq
words_eq_refl [] = refl
words_eq_refl (w ∷ ws) = rw (eq_refl w, words_eq_refl ws) refl

-- Words that are one of two different lists are not the other.
words_eq-other : (u v w : Words) → words_eq u v ≡ false → words_eq u w ≡ true → words_eq v w ≡ false
words_eq-other u v w h k = elim (Bool-cases (words_eq v w)) [
  | inl e ↦
      let same : u ≡ v = words_eq-path u w k ∙ sym (words_eq-path v w e) in
      elim (false≢true (sym h ∙ (ap (words_eq u) (sym same) ∙ words_eq_refl u))) [ ]
  | inr e ↦ e
]

not_empty {ℓ} : {A : Type ℓ} {B : Type 0} (xs ys : List A) (x : A) → xs ++ x ∷ ys ≡ [] → B
not_empty [] ys x h = cc
not_empty (y ∷ xs) ys x h = cc

set_default-filled :
    {B : Type 0} (path : String) (line : ℕ) (hits : Hits) → set_default path line hits ≡ [] → B
set_default-filled path line [] h = cc
set_default-filled path line (x ∷ hits) h = elim (Bool-cases (any (λ k. k.0 == path) (x ∷ hits))) [
  | inl e ↦ not_empty [] hits x (rw e at h)
  | inr e ↦ not_empty (x ∷ hits) [] (path, line) (rw e at h)
]

abbrev Misses : Words → Words → Type 0
Misses w v = words_eq v w ≡ false

hits_at-add_hit :
    (w v : Words) (path : String) (line : ℕ) (index : Index)
    → (hits_at w (add_hit v path line index) ≡ []) ↔ (Misses w v × (hits_at w index ≡ []))
unfolding hits_at add_hit
hits_at-add_hit w v path line [] = elim (Bool-cases (words_eq v w)) [
  | inl e ↦ rw e (λ h. cc, λ (a, b). elim (false≢true (sym a)) [ ])
  | inr e ↦ rw e (λ h. (refl, refl), λ h. refl)
]
hits_at-add_hit w v path line ((u, hits) ∷ index) = elim (Bool-cases (words_eq u v)) [
  | inl e ↦ elim (Bool-cases (words_eq u w)) [
    | inl f ↦
        let same = ap (λ x. words_eq x w) (words_eq-path u v e) in
        rw (e, f)
          (
            λ h. set_default-filled path line hits h,
            λ (a, b). elim (false≢true (sym a ∙ (sym same ∙ f))) [ ],
          )
    | inr f ↦
        let same = ap (λ x. words_eq x w) (words_eq-path u v e) in
        rw (e, f) (λ h. (sym same ∙ f, h), λ (a, b). b)
  ]
  | inr e ↦ elim (Bool-cases (words_eq u w)) [
    | inl f ↦ rw (e, f) (λ h. (words_eq-other u v w e f, h), λ (a, b). b)
    | inr f ↦ rw (e, f) (hits_at-add_hit w v path line index)
  ]
]

-- No shingle of the list has these words.
abbrev pub NoneOf : Words → List Shingle → Type 0
NoneOf w ss = All (λ s. words_eq s.words w ≡ false) ss

hits_at-index_shingles :
    (w : Words) (path : String) (ss : List Shingle) (index : Index)
    → (hits_at w (index_shingles path ss index) ≡ []) ↔ (NoneOf w ss × (hits_at w index ≡ []))
unfolding index_shingles
hits_at-index_shingles w path [] index = (λ h. (tt, h), λ (a, b). b)
hits_at-index_shingles w path (s ∷ ss) index =
    let (to, from) = hits_at-index_shingles w path ss (add_hit s.words path s.line index) in
    let (one, one') = hits_at-add_hit w s.words path s.line index in
    (
      λ h. let (a, b) = to h in let (c, d) = one b in ((c, a), d),
      λ ((c, a), d). from (a, one' (c, d)),
    )

module _ (letters : Letters) (n : ℕ) where
  -- No source has these words for one of its shingles.
  abbrev pub Absent : Texts → Words → Type 0
  Absent sources w = All (λ source. NoneOf w (shingles letters source.1 n)) sources

  pub hits_at-source_index :
      (w : Words) (sources : Texts) (index : Index)
      → (hits_at w (source_index letters n sources index) ≡ [])
        ↔ (Absent sources w × (hits_at w index ≡ []))
  unfolding source_index
  hits_at-source_index w [] index = (λ h. (tt, h), λ (a, b). b)
  hits_at-source_index w ((path, text) ∷ sources) index =
      let ss = shingles letters text n in
      let (to, from) = hits_at-source_index w sources (index_shingles path ss index) in
      let (one, one') = hits_at-index_shingles w path ss index in
      (
        λ h. let (a, b) = to h in let (c, d) = one b in ((c, a), d),
        λ ((c, a), d). from (a, one' (c, d)),
      )

pub nowhere : (w : Words) → hits_at w [] ≡ []
unfolding hits_at
nowhere w = refl
