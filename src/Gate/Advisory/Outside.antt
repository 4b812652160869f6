-- ===== src/Gate/Advisory/Outside.antt =====
-- Which checks the two reports name.
use mathlib.Core.List.{Memᴰ}
use borromean_rings.Base.{
  some-inj, String, ◌≡◌, refl, sym, ◌∙◌, ap, subst, ◌↔◌, Bool, true, false, Option, none, some,
  List, [], ◌∷◌, elem, eq_iff, eq_refl, Option-cases, inl, inr, if◌then◌else◌,
}
use borromean_rings.Json.{Value, str, real, object, array, int, bool, null, Fields, get}
use borromean_rings.Gate.Status.{is_failing}
use borromean_rings.Gate.Evidence.{present}
use borromean_rings.Gate.Advisory.{
  File, is_text, own_receipt, failing_status, failing_receipt, advisory_of, advisory_failures,
  hollow_receipt, hollow_of, hollow_outside,
}

module _ {A B : Type 0} (f : A → Option B) where
  present-skip : (x : A) (xs : List A) → f x ≡ none → present f (x ∷ xs) ≡ present f xs
  present-skip x xs e = rw (e, present) refl

  present-keep :
      (x : A) (xs : List A) (y : B) → f x ≡ some y → present f (x ∷ xs) ≡ y ∷ present f xs
  present-keep x xs y e = rw (e, present) refl

  from_kept :
      (y : B) (x : A) (w : B) (xs : List A)
      → (Memᴰ y (present f xs) → (z : A) × Memᴰ z xs × (f z ≡ some y))
      → f x ≡ some w
      → Memᴰ y (w ∷ present f xs)
      → (z : A) × Memᴰ z (x ∷ xs) × (f z ≡ some y)
  from_kept y x w xs rest e (Memᴰ.head q) = (x, Memᴰ.head refl, e ∙ ap some (sym q))
  from_kept y x w xs rest e (Memᴰ.tail m) = let (z, n, q) = rest m in (z, Memᴰ.tail n, q)

  from_present :
      (y : B) (xs : List A) → Memᴰ y (present f xs) → (x : A) × Memᴰ x xs × (f x ≡ some y)
  from_present y [] m = elim m [ ]
  from_present y (x ∷ xs) m = elim (Option-cases (f x)) [
    | inl e ↦
        let (z, n, q) = from_present y xs (subst (Memᴰ y) (present-skip x xs e) m) in
        (z, Memᴰ.tail n, q)
    | inr (w, e) ↦
        from_kept y x w xs (from_present y xs) e (subst (Memᴰ y) (present-keep x xs w e) m)
  ]

  to_present : (y : B) (xs : List A) (x : A) → Memᴰ x xs → f x ≡ some y → Memᴰ y (present f xs)
  to_present y [] x m e = elim m [ ]
  to_present y (k ∷ xs) x (Memᴰ.head q) e =
      subst (Memᴰ y) (sym (present-keep k xs y (ap f (sym q) ∙ e))) (Memᴰ.head refl)
  to_present y (k ∷ xs) x (Memᴰ.tail m) e = elim (Option-cases (f k)) [
    | inl n ↦ subst (Memᴰ y) (sym (present-skip k xs n)) (to_present y xs x m e)
    | inr (w, n) ↦ subst (Memᴰ y) (sym (present-keep k xs w n)) (Memᴰ.tail (to_present y xs x m e))
  ]

text_is : (o : Option Value) (s : String) → is_text o s ≡ true → o ≡ some (str s)
text_is none s h = cc
text_is (some (str t)) s h = ap (λ x. some (str x)) ((eq_iff t s).0 h)
text_is (some (real t)) s h = cc
text_is (some (object fs)) s h = cc
text_is (some (array vs)) s h = cc
text_is (some (int n)) s h = cc
text_is (some (bool b)) s h = cc
text_is (some null) s h = cc

-- A receipt outside the expected set that names its own file.
abbrev pub IsOutside : List File → List String → String → Fields → Type 0
IsOutside files expected stem receipt =
    Memᴰ (stem, some (object receipt)) files
    × (elem stem expected ≡ false)
    × (get "check" receipt ≡ some (str stem))

-- What an entry of the report says of its file.
abbrev pub IsAdvisory : List File → List String → String → String → Type 0
IsAdvisory files expected stem status =
    (receipt : Fields) × IsOutside files expected stem receipt
    × (get "status" receipt ≡ some (str status))
    × (is_failing status ≡ true)

where_true :
    {A : Type 0} (b : Bool) (y z : A) → (if b then some y else none) ≡ some z → (b ≡ true) × (y ≡ z)
where_true true y z h = (refl, some-inj y z h)
where_true false y z h = cc

where_false :
    {A : Type 0} (b : Bool) (o : Option A) (z : A)
    → (if b then none else o) ≡ some z
    → (b ≡ false) × (o ≡ some z)
where_false true o z h = cc
where_false false o z h = (refl, h)

failing-parts :
    (stem : String) (o : Option Value) (s t : String)
    → failing_status stem o ≡ some (s, t)
    → (stem ≡ s) × (o ≡ some (str t)) × (is_failing t ≡ true)
failing-parts stem none s t h = cc
failing-parts stem (some (str r)) s t h =
    let (e, q) = where_true (is_failing r) (stem, r) (s, t) h in
    let q₁ = ap (λ (p : String × String). p.1) q in
    (
      ap (λ (p : String × String). p.0) q,
      ap (λ x. some (str x)) q₁,
      subst (λ x. is_failing x ≡ true) q₁ e,
    )
failing-parts stem (some (real r)) s t h = cc
failing-parts stem (some (object fs)) s t h = cc
failing-parts stem (some (array vs)) s t h = cc
failing-parts stem (some (int n)) s t h = cc
failing-parts stem (some (bool b)) s t h = cc
failing-parts stem (some null) s t h = cc

own-parts :
    (stem : String) (v : Option Value) (r : Fields)
    → own_receipt stem v ≡ some r
    → (v ≡ some (object r)) × (get "check" r ≡ some (str stem))
own-parts stem none r h = cc
own-parts stem (some (object fs)) r h =
    let (e, q) = where_true (is_text (get "check" fs) stem) fs r h in
    (
      ap (λ x. some (object x)) q,
      subst (λ x. get "check" x ≡ some (str stem)) q (text_is (get "check" fs) stem e),
    )
own-parts stem (some (str s)) r h = cc
own-parts stem (some (real s)) r h = cc
own-parts stem (some (array vs)) r h = cc
own-parts stem (some (int n)) r h = cc
own-parts stem (some (bool b)) r h = cc
own-parts stem (some null) r h = cc

receipt-parts :
    (stem : String) (o : Option Fields) (s t : String)
    → failing_receipt stem o ≡ some (s, t)
    → (r : Fields) × (o ≡ some r)
      × (stem ≡ s)
      × (get "status" r ≡ some (str t))
      × (is_failing t ≡ true)
receipt-parts stem none s t h = cc
receipt-parts stem (some r) s t h =
    let (a, b, c) = failing-parts stem (get "status" r) s t h in (r, refl, a, b, c)

listed :
    (files : List File) (expected : List String) (s t : String) (stem : String) (v : Option Value)
    → Memᴰ (stem, v) files
    → advisory_of expected (stem, v) ≡ some (s, t)
    → IsAdvisory files expected s t
listed files expected s t stem v m h =
    let (out, f) =
      where_false (elem stem expected) (failing_receipt stem (own_receipt stem v)) (s, t) h in
    let (r, own, same, status, failing) = receipt-parts stem (own_receipt stem v) s t f in
    let (whole, check) = own-parts stem v r own in
    (
      r,
      (
        subst (λ (e : File). Memᴰ e files) (cc (same, whole)) m,
        subst (λ x. elem x expected ≡ false) same out,
        subst (λ x. get "check" r ≡ some (str x)) same check,
      ),
      status,
      failing,
    )

is_listed :
    (expected : List String) (s t : String) (r : Fields)
    → elem s expected ≡ false
    → get "check" r ≡ some (str s)
    → get "status" r ≡ some (str t)
    → is_failing t ≡ true
    → advisory_of expected (s, some (object r)) ≡ some (s, t)
is_listed expected s t r a b c d = rw (a, b, eq_refl, c, d) refl

-- A check is reported with a status exactly when it is not expected and the run holds a receipt
-- that is an object, names its own file, and has that status, a failing one.
pub advisory_failures_iff :
    (files : List File) (expected : List String) (stem status : String)
    → Memᴰ (stem, status) (advisory_failures files expected) ↔ IsAdvisory files expected stem status
unfolding advisory_failures
advisory_failures_iff files expected stem status = (
  λ m.
      let (file, n, e) = from_present (advisory_of expected) (stem, status) files m in
      listed files expected stem status file.0 file.1 n e,
  λ (r, (m, a, b), c, d).
      to_present (advisory_of expected) (stem, status) files (stem, some (object r)) m
        (is_listed expected stem status r a b c d),
)

abbrev pub IsHollow : List File → List String → String → Type 0
IsHollow files expected stem =
    (receipt : Fields) × IsOutside files expected stem receipt
    × (get "status" receipt ≡ some (str "noop"))

hollow-parts :
    (stem : String) (o : Option Fields) (s : String)
    → hollow_receipt stem o ≡ some s
    → (r : Fields) × (o ≡ some r) × (stem ≡ s) × (get "status" r ≡ some (str "noop"))
hollow-parts stem none s h = cc
hollow-parts stem (some r) s h =
    let (e, q) = where_true (is_text (get "status" r) "noop") stem s h in
    (r, refl, q, text_is (get "status" r) "noop" e)

IsHollow-listed :
    (files : List File) (expected : List String) (s : String) (stem : String) (v : Option Value)
    → Memᴰ (stem, v) files
    → hollow_of expected (stem, v) ≡ some s
    → IsHollow files expected s
IsHollow-listed files expected s stem v m h =
    let (out, f) =
      where_false (elem stem expected) (hollow_receipt stem (own_receipt stem v)) s h in
    let (r, own, same, status) = hollow-parts stem (own_receipt stem v) s f in
    let (whole, check) = own-parts stem v r own in
    (
      r,
      (
        subst (λ (e : File). Memᴰ e files) (cc (same, whole)) m,
        subst (λ x. elem x expected ≡ false) same out,
        subst (λ x. get "check" r ≡ some (str x)) same check,
      ),
      status,
    )

is_hollow_listed :
    (expected : List String) (s : String) (r : Fields)
    → elem s expected ≡ false
    → get "check" r ≡ some (str s)
    → get "status" r ≡ some (str "noop")
    → hollow_of expected (s, some (object r)) ≡ some s
is_hollow_listed expected s r a b c = rw (a, b, eq_refl, c) refl

-- A check is reported as hollow exactly when it is not expected and the run holds a receipt that is
-- an object, names its own file, and has the status `noop`.
pub hollow_outside_iff :
    (files : List File) (expected : List String) (stem : String)
    → Memᴰ stem (hollow_outside files expected) ↔ IsHollow files expected stem
unfolding hollow_outside
hollow_outside_iff files expected stem = (
  λ m.
      let (file, n, e) = from_present (hollow_of expected) stem files m in
      IsHollow-listed files expected stem file.0 file.1 n e,
  λ (r, (m, a, b), c).
      to_present (hollow_of expected) stem files (stem, some (object r)) m
        (is_hollow_listed expected stem r a b c),
)
