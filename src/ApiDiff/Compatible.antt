-- ===== src/ApiDiff/Compatible.antt =====
-- What an interface without breaking changes keeps.
use borromean_rings.Base.{
  append-none, ◌≤◌, String, ◌≡◌, refl, sym, ◌∙◌, ◌↔◌, inl, inr, true, not, Option, none, some, List,
  [], ◌∷◌, ◌==◌, elem, keep, All, ltb, le→ltb, arith, Bool-cases, eq_iff,
}
use mathlib.Core.Bool.{false≢true}
use borromean_rings.Base.Names.{sorted_names, unsorted}
use borromean_rings.ApiDiff.{
  Signature, Api, signature_at, required_break, gone_break, breaks_between, breaks_of, breaks_among,
  names_of, breaking_changes,
}

-- What the comparison asks of the new signature of a name: the same kind, no more positional
-- parameters without a default, and every parameter by its name. That is less than that a caller of
-- the old one can call it: `f(a, c, b=0)` is so related to `f(a, b)`, and a keyword-only parameter
-- without a default is not asked about.
abbrev pub KeepsUp : Signature → Signature → Type 0
KeepsUp before after =
    (before.kind ≡ after.kind)
    × (after.required ≤ before.required)
    × All (λ p. elem p after.params ≡ true) before.params

abbrev pub IsKeptUp : Option Signature → Option Signature → Type 0
IsKeptUp none after = Unit
IsKeptUp (some before) none = ⊥
IsKeptUp (some before) (some after) = KeepsUp before after

required-none :
    (name : String) (before after : Signature)
    → (required_break name before after ≡ []) ↔ (after.required ≤ before.required)
required-none name before after = elim (Bool-cases (ltb before.required after.required)) [
  | inl e ↦
      rw e (λ h. cc, λ h. absurd (false≢true (sym (le→ltb before.required after.required h) ∙ e)))
  | inr e ↦ rw e (λ h. ground (arith, e), λ h. refl)
]

gone-none :
    (name : String) (params kept : List String)
    → (gone_break name (keep (λ p. not (elem p kept)) params) ≡ [])
      ↔ All (λ p. elem p kept ≡ true) params
gone-none name [] kept = (λ h. tt, λ h. refl)
gone-none name (p ∷ params) kept = elim (Bool-cases (elem p kept)) [
  | inl e ↦
      let (to, from) = gone-none name params kept in rw e (λ h. (refl, to h), λ (a, b). from b)
  | inr e ↦ rw e (λ h. cc, λ (a, b). cc)
]

between-none :
    (name : String) (before after : Signature)
    → (breaks_between name before after ≡ []) ↔ KeepsUp before after
between-none name before after = elim (Bool-cases (before.kind == after.kind)) [
  | inl e ↦
      let gone = gone_break name (keep (λ p. not (elem p after.params)) before.params) in
      let (a, b) = append-none (required_break name before after) gone in
      let (c, d) = required-none name before after in
      let (f, g) = gone-none name before.params after.params in
      let same = (eq_iff before.kind after.kind).0 e in
      rw e (λ h. let (x, y) = a h in (same, c x, f y), λ (k, x, y). b (d x, g y))
  | inr e ↦ rw e (λ h. cc, λ (k, x, y). cc ((eq_iff before.kind after.kind).1 k, e))
]

of-none :
    (name : String) (before after : Option Signature)
    → (breaks_of name before after ≡ []) ↔ IsKeptUp before after
of-none name none after = (λ h. tt, λ h. refl)
of-none name (some before) none = (λ h. cc, λ h. absurd h)
of-none name (some before) (some after) = between-none name before after

among-none :
    (old new : Api) (names : List String)
    → (breaks_among old new names ≡ [])
      ↔ All (λ n. IsKeptUp (signature_at n old) (signature_at n new)) names
unfolding breaks_among
among-none old new [] = (λ h. tt, λ h. refl)
among-none old new (n ∷ names) =
    let head = breaks_of n (signature_at n old) (signature_at n new) in
    let (a, b) = append-none head (breaks_among old new names) in
    let (c, d) = of-none n (signature_at n old) (signature_at n new) in
    let (to, from) = among-none old new names in
    (λ h. let (x, y) = a h in (c x, to y), λ (x, y). b (d x, from y))

-- An interface in which no breaking change is found has every public name of the old one, each of
-- the same kind, with no more positional parameters without a default, and with every parameter of
-- the old one among its own.
pub breaking_changes-keeps :
    (old new : Api)
    → breaking_changes old new ≡ []
    → All (λ n. IsKeptUp (signature_at n old) (signature_at n new)) (names_of old)
unfolding breaking_changes
breaking_changes-keeps old new h =
    unsorted (λ n. IsKeptUp (signature_at n old) (signature_at n new)) (names_of old)
      ((among-none old new (sorted_names (names_of old))).0 h)
