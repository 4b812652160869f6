-- ===== src/Provenance/Compare/Unlisted.antt =====
-- When the gate finds no unlisted overlap.
use borromean_rings.Base.{
  arith, ltb, le→ltb, ℕ, suc, String, ◌≡◌, refl, ap, ◌↔◌, ◌⊎◌, inl, inr, Bool, true, false, some,
  some-inj, List, [], ◌∷◌, append-none, All, Bool-cases, if◌then◌else◌,
}
use mathlib.Core.Bool.{false≢true}
use borromean_rings.Provenance.Shingles.{
  Words, Letters, Shingle, shingles, is_allowed, normalized_allow,
}
use borromean_rings.Provenance.Index.{Hits, Index, Texts, source_index, hits_at}
use borromean_rings.Provenance.Compare.{
  Overlap, overlaps_at, compare_shingles, compare_texts, before, same_overlap, insert_overlap,
  sorted_overlaps, compare, overlaps,
}
use borromean_rings.Provenance.Index.Found.{Absent, hits_at-source_index, nowhere}

overlaps_at-none :
    (path : String) (s : Shingle) (hits : Hits) → (overlaps_at path s hits ≡ []) ↔ (hits ≡ [])
overlaps_at-none path s [] = (λ h. refl, λ h. refl)
overlaps_at-none path s (h ∷ hits) = (λ e. cc, λ e. cc)

chosen-filled {ℓ} :
    {A : Type ℓ} {B : Type 0} (c d : Bool) (x y z : A) (xs ys zs : List A)
    → (if c then x ∷ xs else if d then y ∷ ys else z ∷ zs) ≡ []
    → B
chosen-filled true d x y z xs ys zs h = cc
chosen-filled false true x y z xs ys zs h = cc
chosen-filled false false x y z xs ys zs h = cc

insert_overlap-filled :
    {B : Type 0} (a : Overlap) (found : List Overlap) → insert_overlap a found ≡ [] → B
unfolding insert_overlap
insert_overlap-filled a [] h = cc
insert_overlap-filled a (b ∷ found) h =
    chosen-filled (same_overlap a b) (before a b) b a b found (b ∷ found) (insert_overlap a found) h

sorted_overlaps-none : (found : List Overlap) → (sorted_overlaps found ≡ []) ↔ (found ≡ [])
unfolding sorted_overlaps
sorted_overlaps-none [] = (λ h. refl, λ h. refl)
sorted_overlaps-none (a ∷ found) = (λ h. insert_overlap-filled a (sorted_overlaps found) h, λ h. cc)

All-iff {ℓ} :
    {A : Type ℓ} (P Q : A → Type 0) (xs : List A) → ((x : A) → P x ↔ Q x) → All P xs ↔ All Q xs
All-iff P Q [] e = (λ h. tt, λ h. tt)
All-iff P Q (x ∷ xs) e =
    let (to, from) = All-iff P Q xs e in
    let (one, one') = e x in (λ (h, hs). (one h, to hs), λ (h, hs). (one' h, from hs))

some_iff {ℓ} : {A : Type ℓ} (a b : A) → (some a ≡ some b) ↔ (a ≡ b)
some_iff a b = (some-inj a b, ap some)

module _ (letters : Letters) (phrases : List Words) (index : Index) where
  abbrev Passes : Shingle → Type 0
  Passes s = (is_allowed s.words phrases ≡ true) ⊎ (hits_at s.words index ≡ [])

  compare_shingles-none :
      (path : String) (ss : List Shingle)
      → ((compare_shingles letters phrases index path ss).findings ≡ []) ↔ All Passes ss
  unfolding compare_shingles
  compare_shingles-none path [] = (λ h. tt, λ h. refl)
  compare_shingles-none path (s ∷ ss) =
      let (to, from) = compare_shingles-none path ss in
      let hits = hits_at s.words index in
      let (one, one') = overlaps_at-none path s hits in
      let (a, b) =
        append-none (overlaps_at path s hits)
          (compare_shingles letters phrases index path ss).findings in
      elim (Bool-cases (is_allowed s.words phrases)) [
        | inl e ↦ rw e (λ h. (inl refl, to h), λ (x, y). from y)
        | inr e ↦ rw e (
          λ h. let (x, y) = a h in (inr (one x), to y),
          λ (x, y). elim x [ inl f ↦ elim (false≢true f) [ ] | inr f ↦ b (one' f, from y) ],
        )
      ]

  compare_texts-none :
      (n : ℕ) (changed : Texts)
      → ((compare_texts letters phrases index n changed).findings ≡ [])
        ↔ All (λ c. All Passes (shingles letters c.1 n)) changed
  unfolding compare_texts
  compare_texts-none n [] = (λ h. tt, λ h. refl)
  compare_texts-none n ((path, text) ∷ changed) =
      let (to, from) = compare_texts-none n changed in
      let ss = shingles letters text n in
      let (one, one') = compare_shingles-none path ss in
      let (a, b) =
        append-none (compare_shingles letters phrases index path ss).findings
          (compare_texts letters phrases index n changed).findings in
      (λ h. let (x, y) = a h in (one x, to y), λ (x, y). b (one' x, from y))

covered :
    (letters : Letters) (n : ℕ) (sources : Texts) (phrases : List Words) (s : Shingle)
    → Passes letters phrases (source_index letters n sources []) s
      ↔ ((is_allowed s.words phrases ≡ true) ⊎ Absent letters n sources s.words)
covered letters n sources phrases s =
    let (to, from) = hits_at-source_index letters n s.words sources [] in
    (
      λ h. elim h [ inl e ↦ inl e | inr e ↦ inr (to e).0 ],
      λ h. elim h [ inl e ↦ inl e | inr e ↦ inr (from (e, nowhere s.words)) ],
    )

-- With an allowlist each of whose entries has a word, and shingles of at least one word, the gate
-- finds nothing exactly when each shingle of each changed text is covered by a phrase of the
-- allowlist or is a shingle of no source.
pub overlaps-none :
    (letters : Letters) (changed sources : Texts) (allow : List String) (n : ℕ)
    (phrases : List Words)
    → normalized_allow letters allow ≡ some phrases
    → (overlaps letters changed sources allow (suc n) ≡ some [])
      ↔ All
          (λ c.
            All
              (λ s. (is_allowed s.words phrases ≡ true) ⊎ Absent letters (suc n) sources s.words)
              (shingles letters c.1 (suc n)))
          changed
unfolding overlaps compare
overlaps-none letters changed sources allow n phrases h =
    let index = source_index letters (suc n) sources [] in
    let found = (compare_texts letters phrases index (suc n) changed).findings in
    let (a, a') = some_iff (sorted_overlaps found) [] in
    let (b, b') = sorted_overlaps-none found in
    let (c, c') = compare_texts-none letters phrases index (suc n) changed in
    let (d, d') = All-iff _ _ changed (λ t.
      All-iff (Passes letters phrases index) _ (shingles letters t.1 (suc n))
        (λ s. covered letters (suc n) sources phrases s)) in
    let positive : ltb (suc n) 1 ≡ false = le→ltb (suc n) 1 (omega arith) in
    rw (positive, h) (λ e. d (c (b (a e))), λ e. a' (b' (c' (d' e))))
