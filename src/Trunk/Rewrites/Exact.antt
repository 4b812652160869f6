-- ===== src/Trunk/Rewrites/Exact.antt =====
-- Which local rewrites are refused, and which are not seen.
use borromean_rings.Base.{
  String, ◌≡◌, ◌≢◌, refl, ◌↔◌, false, Option, none, some, List, [], ◌∷◌, All, arith, Bool-cases,
  inl, inr, elem, eq_iff, ◌==◌,
}
use borromean_rings.Words.{remove_prefix}
use borromean_rings.Trunk.Rewrites.{
  protected_name, reason_for, rewrite_reason, switched_to, switch_violation,
}

-- A name that is no protected branch, in either spelling.
abbrev pub IsFree : List String → String → Type 0
IsFree protected name = elem (remove_prefix name "refs/heads/") protected ≡ false

protected_name-none :
    (protected names : List String)
    → (protected_name protected names ≡ none) ↔ All (IsFree protected) names
unfolding protected_name
protected_name-none protected [] = (λ h. tt, λ h. refl)
protected_name-none protected (n ∷ names) =
    elim (Bool-cases (elem (remove_prefix n "refs/heads/") protected)) [
      | inl e ↦ rw e (λ h. cc, λ (a, b). cc)
      | inr e ↦
          let (to, from) = protected_name-none protected names in
          rw e (λ h. (refl, to h), λ (a, b). from b)
    ]

reason_for-none : (label : String) (o : Option String) → (reason_for label o ≡ none) ↔ (o ≡ none)
reason_for-none label none = (λ h. refl, λ h. refl)
reason_for-none label (some hit) = ground arith

pub rewrite_reason-none :
    (label : String) (names protected : List String)
    → (rewrite_reason label names protected ≡ none) ↔ All (IsFree protected) names
unfolding rewrite_reason
rewrite_reason-none label names protected =
    let (a, b) = reason_for-none label (protected_name protected names) in
    let (c, d) = protected_name-none protected names in (λ h. c (a h), λ h. b (d h))

abbrev pub attach : String → String
attach name = String.◌∷◌ "-" (String.◌∷◌ "B" name)

attach-differs : (name : String) → name ≢ "" → (attach name == "-B") ≡ false
attach-differs name h = elim (Bool-cases (attach name == "-B")) [
  | inl e ↦ let q : attach name ≡ attach "" = (eq_iff (attach name) "-B").0 e in absurd (h (cc q))
  | inr e ↦ e
]

-- `git checkout` with the name of a branch attached to `-B`, as git allows, is never refused, so
-- also where the branch is protected.
pub switch_violation-attach :
    (name start : String) (protected : List String)
    → name ≢ ""
    → switch_violation "checkout" (attach name ∷ start ∷ []) protected ≡ none
unfolding switch_violation switched_to
switch_violation-attach name start protected h = rw (attach-differs name h) refl
