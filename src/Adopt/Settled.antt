-- ===== src/Adopt/Settled.antt =====
-- That a project that followed its plan has nothing left to adopt.
use borromean_rings.Base.{
  String, ◌≡◌, refl, ◌∙◌, ap, subst, eq_iff, Bool, true, false, not, List, [], ◌∷◌, ◌++◌, elem,
  any-append, keep, ◌==◌, All, arith, Bool-cases, inl, inr,
}
use borromean_rings.Base.Names.{elem-All}
use borromean_rings.Adopt.{ratchets, plan_adoption}

elem-keep :
    (p : String → Bool) (x : String) (xs : List String)
    → p x ≡ true
    → elem x xs ≡ true
    → elem x (keep p xs) ≡ true
elem-keep p x [] h e = cc
elem-keep p x (y ∷ ys) h e = elim (Bool-cases (x == y)) [
  | inl f ↦ rw (subst (λ z. p z ≡ true) ((eq_iff x y).0 f) h, f) refl
  | inr f ↦
      let later = elem-keep p x ys h (ground (arith, f, e)) in
      elim (Bool-cases (p y)) [ inl k ↦ rw (k, f) later | inr k ↦ rw k later ]
]

keep-nothing : (p : String → Bool) (xs : List String) → All (λ x. p x ≡ false) xs → keep p xs ≡ []
keep-nothing p [] a = refl
keep-nothing p (x ∷ xs) (h, a) = rw h (keep-nothing p xs a)

module _ (current recommended : List String) (has_changelog : Bool) where
  abbrev added : List String
  added = keep (λ check. not (elem check current)) recommended

  covers : (check : String) → elem check recommended ≡ true → elem check (current ++ added) ≡ true
  covers check e =
      any-append (λ y. check == y) current added ∙ (elim (Bool-cases (elem check current)) [
        | inl f ↦ rw f refl
        | inr f ↦ rw f (elem-keep (λ c. not (elem c current)) check recommended (rw f refl) e)
      ])

  again_nothing : keep (λ check. not (elem check (current ++ added))) recommended ≡ []
  again_nothing =
      keep-nothing (λ check. not (elem check (current ++ added))) recommended
        (elem-All (λ check. not (elem check (current ++ added)) ≡ false) recommended
          (λ check e. ap not (covers check e)))

  -- The plan requires every recommended check, and planning again from what it requires adds nothing
  -- and seeds nothing.
  pub plan_adoption-settled :
      All
        (λ check. elem check (plan_adoption current has_changelog recommended).new_required ≡ true)
        recommended
      × ((plan_adoption
            (plan_adoption current has_changelog recommended).new_required
            has_changelog
            recommended).add_checks
          ≡ [])
      × ((plan_adoption
            (plan_adoption current has_changelog recommended).new_required
            has_changelog
            recommended).seed_baselines
          ≡ [])
  unfolding plan_adoption
  plan_adoption-settled = (
    elem-All (λ check. elem check (current ++ added) ≡ true) recommended covers,
    again_nothing,
    ap (keep (λ check. elem check ratchets)) again_nothing,
  )
