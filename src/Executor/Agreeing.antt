-- ===== src/Executor/Agreeing.antt =====
-- What receipts without differences agree on.
use borromean_rings.Base.{
  append-none, String, ◌≡◌, refl, sym, ◌∙◌, ◌↔◌, Bool, true, false, Option, none, some, List, [],
  ◌∷◌, ◌++◌, ◌==◌, elem, any-append, All, arith, Bool-cases, inl, inr, eq_iff, eq_refl,
}
use mathlib.Core.Bool.{false≢true}
use borromean_rings.Base.Names.{sorted_names, elem-sorted_names, elem-All, All-elem}
use borromean_rings.Json.{Fields, member, no_members, Value, get}
use borromean_rings.Executor.{
  comparable, keys_of, difference_at, differences_at, differences_between, receipt_differences,
}

-- What two receipts say of a field: nothing, or equal values.
abbrev pub Agrees : (Value → Value → Bool) → Option Value → Option Value → Type 0
Agrees equal none none = Unit
Agrees equal (some a) none = ⊥
Agrees equal none (some b) = ⊥
Agrees equal (some a) (some b) = equal a b ≡ true

difference-none :
    (equal : Value → Value → Bool) (key : String) (a b : Option Value)
    → (difference_at equal key a b ≡ []) ↔ Agrees equal a b
difference-none equal key none none = (λ h. tt, λ h. refl)
difference-none equal key (some a) none = (λ h. cc, λ h. absurd h)
difference-none equal key none (some b) = (λ h. cc, λ h. absurd h)
difference-none equal key (some a) (some b) = elim (Bool-cases (equal a b)) [
  | inl e ↦ rw e (λ h. refl, λ h. refl)
  | inr e ↦ rw e (λ h. cc, λ h. cc)
]

absent :
    (key : String) (fields : Fields) → elem key (keys_of fields) ≡ false → get key fields ≡ none
absent key no_members h = refl
absent key (member k v fields) h = elim (Bool-cases (k == key)) [
  | inl e ↦
      let there : elem key (k ∷ keys_of fields) ≡ true =
        rw ((eq_iff k key).0 e, eq_refl key) refl in
      absurd (false≢true (sym h ∙ there))
  | inr e ↦ rw e (absent key fields (ground (arith, h)))
]

module _ (equal : Value → Value → Bool) (left right : Fields) where
  abbrev At : String → Type 0
  At key = Agrees equal (get key left) (get key right)

  differences-none :
      (keys : List String) → (differences_at equal left right keys ≡ []) ↔ All At keys
  unfolding differences_at
  differences-none [] = (λ h. tt, λ h. refl)
  differences-none (key ∷ keys) =
      let (a, b) =
        append-none (difference_at equal key (get key left) (get key right))
          (differences_at equal left right keys) in
      let (c, d) = difference-none equal key (get key left) (get key right) in
      let (to, from) = differences-none keys in
      (λ h. let (x, y) = a h in (c x, to y), λ (x, y). b (d x, from y))

  unnamed : (key : String) → elem key (keys_of left ++ keys_of right) ≡ false → At key
  unnamed key h =
      let both = sym (any-append (λ y. key == y) (keys_of left) (keys_of right)) ∙ h in
      rw (absent key left (ground (arith, both)), absent key right (ground (arith, both))) tt

  between-none : (differences_between equal left right ≡ []) ↔ ((key : String) → At key)
  between-none =
      let names = keys_of left ++ keys_of right in
      let (to, from) = differences-none (sorted_names names) in
      (
        λ h key. elim (Bool-cases (elem key names)) [
          | inl e ↦ All-elem At (sorted_names names) key (to h) (elem-sorted_names key names ∙ e)
          | inr e ↦ unnamed key e
        ],
        λ f. from (elem-All At (sorted_names names) (λ key e. f key)),
      )

-- Two receipts have no differences exactly when they agree on every field that is compared: it is
-- on neither side, or on both with equal values.
pub receipt_differences-none :
    (equal : Value → Value → Bool) (ignored : List String) (reference candidate : Fields)
    → (receipt_differences equal ignored reference candidate ≡ []) ↔ (
        (key : String)
        → Agrees equal
            (get key (comparable ignored reference))
            (get key (comparable ignored candidate)))
unfolding receipt_differences
receipt_differences-none equal ignored reference candidate =
    between-none equal (comparable ignored reference) (comparable ignored candidate)
