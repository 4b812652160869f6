-- ===== src/Charter/Accepted.antt =====
-- Which charters are accepted.
use borromean_rings.Base.{
  append-none, ℕ, suc, String, ◌≡◌, refl, sym, subst, ◌↔◌, ◌⊎◌, inl, inr, Bool, true, false, ◌&&◌,
  Option, none, some, List, [], ◌∷◌, ◌++◌, ◌==◌, elem, All, Bool-cases, eq_iff,
}
use borromean_rings.Base.Decimal.{strip, strip_left, strip_right}
use borromean_rings.Charter.{
  Violation, Charter, insert_violation, sorted_violations, blank_reason, is_hedge, add_reason,
  stakes_reason, check_strings, check_items, check_list, check_lists, hedge_reason, or_reason,
  at_index, violation_lt, unknown_keys, extra, required_reason, missing_extras, at_high,
  check_extras, validate,
}

abbrev pub IsFilled : String → Type 0
IsFilled value = (strip value == "") ≡ false

-- A list with an item, whose items are filled and, where that is asked, no hedges.
abbrev pub IsListed : (String → String) → Bool → List String → Type 0
IsListed lower hedges [] = ⊥
IsListed lower hedges (item ∷ items) =
    All (λ i. IsFilled i × ((hedges && is_hedge lower i) ≡ false)) (item ∷ items)

insert-some : (v : Violation) (vs : List Violation) → insert_violation v vs ≡ [] → ⊥
unfolding insert_violation
insert-some v [] h = cc
insert-some v (w ∷ ws) h = elim (Bool-cases (violation_lt w v)) [
  | inl e ↦ cc (rw e at h)
  | inr e ↦ cc (rw e at h)
]

sorted-none : (vs : List Violation) → (sorted_violations vs ≡ []) ↔ (vs ≡ [])
unfolding sorted_violations
sorted-none [] = (λ h. refl, λ h. refl)
sorted-none (v ∷ vs) = (λ h. absurd (insert-some v (sorted_violations vs) h), λ h. cc)

add-none :
    (field : String) (o : Option String) (rest : List Violation)
    → (add_reason field o rest ≡ []) ↔ ((o ≡ none) × (rest ≡ []))
add-none field none rest = (λ h. (refl, h), λ (a, b). b)
add-none field (some r) rest = (λ h. cc, λ (a, b). cc)

blank-none : (value : String) → (blank_reason value ≡ none) ↔ IsFilled value
unfolding blank_reason strip strip_left strip_right
blank-none value = elim (Bool-cases (value == "")) [
  | inl e ↦
      subst (λ v. (blank_reason v ≡ none) ↔ IsFilled v) (sym ((eq_iff value "").0 e))
        (λ h. cc, λ h. cc)
  | inr e ↦ elim (Bool-cases (strip value == "")) [
    | inl f ↦ rw (e, f) (λ h. cc, λ h. cc)
    | inr f ↦ rw (e, f) (λ h. refl, λ h. refl)
  ]
]

stakes-none : (s : String) → (stakes_reason s ≡ none) ↔ (elem s ("low" ∷ "high" ∷ []) ≡ true)
stakes-none s = elim (Bool-cases (s == "")) [
  | inl e ↦
      subst (λ v. (stakes_reason v ≡ none) ↔ (elem v ("low" ∷ "high" ∷ []) ≡ true))
        (sym ((eq_iff s "").0 e)) (λ h. cc, λ h. cc)
  | inr e ↦ elim (Bool-cases (elem s ("low" ∷ "high" ∷ []))) [
    | inl f ↦ rw (e, f) (λ h. refl, λ h. refl)
    | inr f ↦ rw (e, f) (λ h. cc, λ h. cc)
  ]
]

or-none : (a b : Option String) → (or_reason a b ≡ none) ↔ ((a ≡ none) × (b ≡ none))
or-none none b = (λ h. (refl, h), λ (x, y). y)
or-none (some r) b = (λ h. cc, λ (x, y). cc)

hedge-none :
    (lower : String → String) (hedges : Bool) (item : String)
    → (hedge_reason lower hedges item ≡ none) ↔ ((hedges && is_hedge lower item) ≡ false)
hedge-none lower hedges item = elim (Bool-cases (hedges && is_hedge lower item)) [
  | inl e ↦ rw e (λ h. cc, λ h. cc)
  | inr e ↦ rw e (λ h. refl, λ h. refl)
]

items-none :
    (lower : String → String) (hedges : Bool) (key : String) (index : ℕ) (items : List String)
    → (check_items lower hedges key index items ≡ [])
      ↔ All (λ i. IsFilled i × ((hedges && is_hedge lower i) ≡ false)) items
unfolding check_items
items-none lower hedges key index [] = (λ h. tt, λ h. refl)
items-none lower hedges key index (item ∷ items) =
    let reason = or_reason (blank_reason item) (hedge_reason lower hedges item) in
    let later = check_items lower hedges key (suc index) items in
    let (a, b) = add-none (at_index key index) reason later in
    let (c, d) = or-none (blank_reason item) (hedge_reason lower hedges item) in
    let (f, g) = blank-none item in
    let (k, l) = hedge-none lower hedges item in
    let (to, from) = items-none lower hedges key (suc index) items in
    (
      λ h. let (x, y) = a h in let (u, v) = c x in ((f u, k v), to y),
      λ (x, y). b (d (g x.0, l x.1), from y),
    )

list-none :
    (lower : String → String) (hedges : Bool) (key : String) (items : List String)
    → (check_list lower hedges key items ≡ []) ↔ IsListed lower hedges items
list-none lower hedges key [] = (λ h. cc, λ h. absurd h)
list-none lower hedges key (item ∷ items) = items-none lower hedges key 0 (item ∷ items)

unknown-none :
    (allowed : List String) (extras : List (String × String))
    → (unknown_keys allowed extras ≡ [])
      ↔ All (λ (e : String × String). elem e.0 allowed ≡ true) extras
unfolding unknown_keys
unknown-none allowed [] = (λ h. tt, λ h. refl)
unknown-none allowed ((key, value) ∷ extras) = elim (Bool-cases (elem key allowed)) [
  | inl e ↦
      let (to, from) = unknown-none allowed extras in rw e (λ h. (refl, to h), λ (a, b). from b)
  | inr e ↦ rw e (λ h. cc, λ (a, b). cc)
]

required-none : (o : Option String) → (required_reason o ≡ none) ↔ (o ≡ none)
required-none none = (λ h. refl, λ h. refl)
required-none (some r) = (λ h. cc, λ h. cc)

missing-none :
    (allowed : List String) (extras : List (String × String))
    → (missing_extras allowed extras ≡ []) ↔ All (λ key. IsFilled (extra key extras)) allowed
unfolding missing_extras
missing-none [] extras = (λ h. tt, λ h. refl)
missing-none (key ∷ allowed) extras =
    let blank = blank_reason (extra key extras) in
    let (a, b) = add-none key (required_reason blank) (missing_extras allowed extras) in
    let (c, d) = required-none blank in
    let (f, g) = blank-none (extra key extras) in
    let (to, from) = missing-none allowed extras in
    (λ h. let (x, y) = a h in (f (c x), to y), λ (x, y). b (d (g x), from y))

high-none :
    (high : Bool) (missing : List Violation)
    → (at_high high missing ≡ []) ↔ ((high ≡ false) ⊎ (missing ≡ []))
high-none true missing = (λ h. inr h, λ h. elim h [ inl e ↦ cc | inr e ↦ e ])
high-none false missing = (λ h. inl refl, λ h. refl)

-- What makes a charter acceptable, field by field.
abbrev pub IsAcceptable : (String → String) → List String → Charter → Type 0
IsAcceptable lower allowed c =
    IsFilled c.goal
    × IsFilled c.owner
    × (elem c.stakes ("low" ∷ "high" ∷ []) ≡ true)
    × IsListed lower true c.done_when
    × IsListed lower false c.stop_when
    × IsListed lower false c.may_not
    × All (λ (e : String × String). elem e.0 allowed ≡ true) c.extras
    × (((c.stakes == "high") ≡ false) ⊎ All (λ key. IsFilled (extra key c.extras)) allowed)

strings-none :
    (c : Charter)
    → (check_strings c ≡ [])
      ↔ (IsFilled c.goal × IsFilled c.owner × (elem c.stakes ("low" ∷ "high" ∷ []) ≡ true))
unfolding check_strings
strings-none c =
    let third = add_reason "stakes" (stakes_reason c.stakes) [] in
    let second = add_reason "owner" (blank_reason c.owner) third in
    let (a, b) = add-none "goal" (blank_reason c.goal) second in
    let (d, e) = add-none "owner" (blank_reason c.owner) third in
    let (f, g) = add-none "stakes" (stakes_reason c.stakes) [] in
    let (k, l) = blank-none c.goal in
    let (m, n) = blank-none c.owner in
    let (p, q) = stakes-none c.stakes in
    (
      λ h. let (x, y) = a h in let (u, v) = d y in let (w, z) = f v in (k x, m u, p w),
      λ (x, y, z). b (l x, e (n y, g (q z, refl))),
    )

-- A charter has no violations exactly when it is acceptable.
pub validate-none :
    (lower : String → String) (allowed : List String) (c : Charter)
    → (validate lower allowed c ≡ []) ↔ IsAcceptable lower allowed c
unfolding validate check_lists check_extras
validate-none lower allowed c =
    let one = check_strings c in
    let first = check_list lower true "done_when" c.done_when in
    let second = check_list lower false "stop_when" c.stop_when in
    let third = check_list lower false "may_not" c.may_not in
    let unknown = unknown_keys allowed c.extras in
    let missing = at_high (c.stakes == "high") (missing_extras allowed c.extras) in
    let (a, b) = sorted-none (one ++ (first ++ second ++ third) ++ (unknown ++ missing)) in
    let (d, e) = append-none (one ++ (first ++ second ++ third)) (unknown ++ missing) in
    let (f, g) = append-none one (first ++ second ++ third) in
    let (k, l) = append-none (first ++ second) third in
    let (m, n) = append-none first second in
    let (p, q) = append-none unknown missing in
    let (r, s) = strings-none c in
    let (t, u) = list-none lower true "done_when" c.done_when in
    let (v, w) = list-none lower false "stop_when" c.stop_when in
    let (x, y) = list-none lower false "may_not" c.may_not in
    let (o, i) = unknown-none allowed c.extras in
    let (h, j) = high-none (c.stakes == "high") (missing_extras allowed c.extras) in
    let (to, from) = missing-none allowed c.extras in
    (
      λ z.
          let (front, back) = d (a z) in
          let (strings, lists) = f front in
          let (pair, last) = k lists in
          let (done_, stop_) = m pair in
          let (known, high) = p back in
          let (goal, owner, stakes) = r strings in
          (
            goal,
            owner,
            stakes,
            t done_,
            v stop_,
            x last,
            o known,
            elim (h high) [ inl low ↦ inl low | inr none_missing ↦ inr (to none_missing) ],
          ),
      λ (goal, owner, stakes, done_, stop_, last, known, high). b (
          e (
            g (s (goal, owner, stakes), l (n (u done_, w stop_), y last)),
            q (i known, j (elim high [ inl low ↦ inl low | inr filled ↦ inr (from filled) ])),
          )),
    )
