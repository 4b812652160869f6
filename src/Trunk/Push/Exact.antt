-- ===== src/Trunk/Push/Exact.antt =====
-- When a push is refused.
use borromean_rings.Base.{
  String, ◌≡◌, refl, ◌↔◌, false, Option, none, some, List, [], ◌∷◌, All, arith, Bool-cases,
  Option-cases, inl, inr,
}
use borromean_rings.Trunk.{Shell}
use borromean_rings.Trunk.Push.{
  PushSpec, name_matching, first_protected, push_reason, targets, push_spec, push_violation,
}

-- A target that matches no protected branch.
abbrev pub Misses : Shell → List String → String → Type 0
Misses shell protected target = All (λ name. shell.fnmatch name target ≡ false) protected

module _ (shell : Shell) where
  name_matching-none :
      (target : String) (protected : List String)
      → (name_matching shell target protected ≡ none) ↔ Misses shell protected target
  name_matching-none target [] = (λ h. tt, λ h. refl)
  name_matching-none target (p ∷ protected) = elim (Bool-cases (shell.fnmatch p target)) [
    | inl e ↦ rw e (λ h. cc, λ (a, b). cc)
    | inr e ↦
        let (to, from) = name_matching-none target protected in
        rw e (λ h. (refl, to h), λ (a, b). from b)
  ]

  first_protected-none :
      (names protected : List String)
      → (first_protected shell names protected ≡ none) ↔ All (Misses shell protected) names
  unfolding first_protected
  first_protected-none [] protected = (λ h. tt, λ h. refl)
  first_protected-none (target ∷ names) protected =
      elim (Option-cases (name_matching shell target protected)) [
        | inl e ↦
            let (to, from) = first_protected-none names protected in
            rw (e, first_protected)
              (λ h. ((name_matching-none target protected).0 e, to h), λ (a, b). from b)
        | inr (hit, e) ↦
            rw (e, first_protected)
              (λ h. cc, λ (a, b). cc ((name_matching-none target protected).1 a, e))
      ]

  reason-none : (spec : PushSpec) (o : Option String) → (push_reason spec o ≡ none) ↔ (o ≡ none)
  reason-none spec none = (λ h. refl, λ h. refl)
  reason-none spec (some hit) = ground arith

  pub push_violation-none :
      (args : List String) (head : String) (protected : List String)
      → (push_violation shell args head protected ≡ none) ↔ (
          ((push_spec args).everything ≡ false)
          × All (Misses shell protected) (targets (push_spec args) head))
  unfolding push_violation
  push_violation-none args head protected =
      let spec = push_spec args in
      let (a, b) = reason-none spec (first_protected shell (targets spec head) protected) in
      let (c, d) = first_protected-none (targets spec head) protected in
      elim (Bool-cases spec.everything) [
        | inl e ↦ rw e (λ h. cc, λ (x, y). cc)
        | inr e ↦ rw e (λ h. (refl, c (a h)), λ (x, y). b (d y))
      ]
