-- ===== src/Identity/Declared.antt =====
-- What the backstop and the guard on the configuration accept.
use borromean_rings.Base.{
  String, ◌≡◌, refl, sym, ◌↔◌, ◌⊎◌, inl, inr, Bool, true, false, ◌||◌, none, List, [], ◌∷◌, ◌++◌,
  ◌==◌, All, eq_iff, Bool-cases,
}
use mathlib.Core.Bool.{false≢true}
use borromean_rings.Identity.{
  Identity, is_set, is_enforced, differs, Problem, problem_if, or_none, configured_violation,
  offenders, author_violations,
}

-- A field fits where none is declared, or where it is the declared one.
abbrev pub Fits : String → String → Type 0
Fits declared actual = (declared ≡ "") ⊎ (actual ≡ declared)

abbrev pub Matches : Identity → Identity → Type 0
Matches declared actual = Fits declared.name actual.name × Fits declared.email actual.email

pub differs-false :
    (declared actual : String) → (differs declared actual ≡ false) ↔ Fits declared actual
differs-false declared actual = elim (Bool-cases (declared == "")) [
  | inl e ↦ rw e (λ h. inl ((eq_iff declared "").0 e), λ h. refl)
  | inr e ↦ elim (Bool-cases (actual == declared)) [
    | inl f ↦ rw (e, f) (λ h. inr ((eq_iff actual declared).0 f), λ h. refl)
    | inr f ↦
        rw (e, f)
          (
            λ h. cc,
            λ h. elim h [
              | inl a ↦ elim (false≢true (rw e at ((eq_iff declared "").1 a))) [ ]
              | inr a ↦ elim (false≢true (rw f at ((eq_iff actual declared).1 a))) [ ]
            ],
          )
  ]
]

either-false : (a b : Bool) → ((a || b) ≡ false) ↔ ((a ≡ false) × (b ≡ false))
either-false true b = (λ h. cc, λ (x, y). cc)
either-false false b = (λ h. (refl, h), λ (x, y). y)

-- What is not enforced declares no field.
unset : (s : String) → is_set s ≡ false → s ≡ ""
unset s h = elim (Bool-cases (s == "")) [
  | inl e ↦ (eq_iff s "").0 e
  | inr e ↦ elim (false≢true (sym (rw e at h))) [ ]
]

unenforced-Matches :
    (declared actual : Identity) → is_enforced declared ≡ false → Matches declared actual
unfolding is_enforced
unenforced-Matches declared actual h =
    let (to, from) = either-false (is_set declared.email) (is_set declared.name) in
    let (a, b) = to h in (inl (unset declared.name b), inl (unset declared.email a))

-- The test of both fields at once.
abbrev bad : Identity → Identity → Bool
bad declared actual = differs declared.name actual.name || differs declared.email actual.email

bad-false : (declared actual : Identity) → (bad declared actual ≡ false) ↔ Matches declared actual
bad-false declared actual =
    let (to, from) =
      either-false (differs declared.name actual.name) (differs declared.email actual.email) in
    let (n, n') = differs-false declared.name actual.name in
    let (e, e') = differs-false declared.email actual.email in
    (λ h. let (a, b) = to h in (n a, e b), λ (a, b). from (n' a, e' b))

offenders-none :
    (authors : List Identity) (declared : Identity)
    → (offenders authors declared ≡ []) ↔ All (Matches declared) authors
unfolding offenders
offenders-none [] declared = (λ h. tt, λ h. refl)
offenders-none (author ∷ authors) declared =
    let (to, from) = offenders-none authors declared in
    let (b, b') = bad-false declared author in
    elim (Bool-cases (bad declared author)) [
      | inl e ↦ rw e (λ h. cc, λ (m, a). elim (false≢true (sym (rw e at b' m))) [ ])
      | inr e ↦ rw e (λ h. (b e, to h), λ (m, a). from a)
    ]

authors-Matches :
    (authors : List Identity) (declared : Identity)
    → is_enforced declared ≡ false
    → All (Matches declared) authors
authors-Matches [] declared h = tt
authors-Matches (author ∷ authors) declared h =
    (unenforced-Matches declared author h, authors-Matches authors declared h)

author_violations-none :
    (authors : List Identity) (declared : Identity)
    → (author_violations authors declared ≡ []) ↔ All (Matches declared) authors
unfolding author_violations
author_violations-none authors declared = elim (Bool-cases (is_enforced declared)) [
  | inl e ↦ rw e (offenders-none authors declared)
  | inr e ↦ rw e (λ h. authors-Matches authors declared e, λ h. refl)
]

problems-none :
    (a b : Bool) (p q : Problem)
    → (or_none (problem_if a p ++ problem_if b q) ≡ none) ↔ ((a || b) ≡ false)
problems-none true b p q = (λ h. cc, λ h. cc)
problems-none false true p q = (λ h. cc, λ h. cc)
problems-none false false p q = (λ h. refl, λ h. refl)

configured_violation-none :
    (configured declared : Identity)
    → (configured_violation configured declared ≡ none) ↔ Matches declared configured
unfolding configured_violation
configured_violation-none configured declared = elim (Bool-cases (is_enforced declared)) [
  | inl e ↦
      let (to, from) =
        problems-none (differs declared.name configured.name)
          (differs declared.email configured.email) _ _ in
      let (b, b') = bad-false declared configured in rw e (λ h. b (to h), λ m. from (b' m))
  | inr e ↦ rw e (λ h. unenforced-Matches declared configured e, λ h. refl)
]

-- The guard on the configuration and the backstop on the commits judge alike: a configured identity
-- passes exactly when it has every declared field as declared, and the authors of the commits pass
-- exactly when each of them has. A field that is not declared is not compared.
pub declared_identities-Matches :
    (configured declared : Identity) (authors : List Identity)
    → ((configured_violation configured declared ≡ none) ↔ Matches declared configured)
      × ((author_violations authors declared ≡ []) ↔ All (Matches declared) authors)
declared_identities-Matches configured declared authors =
    (configured_violation-none configured declared, author_violations-none authors declared)
