-- ===== src/Closure/Declared/Asked.antt =====
-- That what a manifest declares is what its requirement strings ask for.
use mathlib.Core.List.{Memᴰ}
use borromean_rings.Base.{
  ◌≡◌, refl, sym, ◌∙◌, true, Option, none, some, List, [], ◌∷◌, ◌++◌, any-append, All, ◌⊎◌, inl,
  inr, arith, Bool-cases, subst,
}
use borromean_rings.Json.{Value, Fields}
use borromean_rings.Closure.Requirement.{
  Text, Unicode, text_eq, contains, requirement_name, requirement_extras,
}
use borromean_rings.Closure.Walk.{Wanted}
use borromean_rings.Closure.Reach.{text_eq_refl}
use borromean_rings.Closure.Declared.{
  table, answer, strings, groups, want, want_named, want_entries, want_groups,
  declared_requirements,
}

-- Every text of the first list is in the second.
abbrev pub IsWithin : List Text → List Text → Type 0
IsWithin extras names = All (λ e. contains e names ≡ true) extras

-- Some entry of a name asks for all of the extras.
abbrev pub Covers : List Wanted → Text → List Text → Type 0
Covers [] name extras = ⊥
Covers (w ∷ wanted) name extras =
    (text_eq w.0 name ≡ true) × IsWithin extras w.1 ⊎ Covers wanted name extras

IsWithin-left : (extras a b : List Text) → IsWithin extras a → IsWithin extras (a ++ b)
IsWithin-left [] a b h = tt
IsWithin-left (e ∷ extras) a b h =
    (rw any-append (ground (arith, h.0)), IsWithin-left extras a b h.1)

IsWithin-right : (extras a b : List Text) → IsWithin extras b → IsWithin extras (a ++ b)
IsWithin-right [] a b h = tt
IsWithin-right (e ∷ extras) a b h =
    (rw any-append (ground (arith, h.0)), IsWithin-right extras a b h.1)

IsWithin-self : (extras : List Text) → IsWithin extras extras
IsWithin-self [] = tt
IsWithin-self (e ∷ extras) =
    (rw text_eq_refl refl, IsWithin-right extras (e ∷ []) extras (IsWithin-self extras))

Covers-want :
    (name : Text) (extras : List Text) (n : Text) (es : List Text) (wanted : List Wanted)
    → Covers wanted n es
    → Covers (want name extras wanted) n es
Covers-want name extras n es [] h = elim h [ ]
Covers-want name extras n es ((m, ms) ∷ wanted) (inl h) = elim (Bool-cases (text_eq m name)) [
  | inl e ↦ rw e (inl (h.0, IsWithin-left es ms extras h.1))
  | inr e ↦ rw e (inl h)
]
Covers-want name extras n es ((m, ms) ∷ wanted) (inr h) = elim (Bool-cases (text_eq m name)) [
  | inl e ↦ rw e (inr h)
  | inr e ↦ rw e (inr (Covers-want name extras n es wanted h))
]

Covers-new :
    (name : Text) (extras : List Text) (wanted : List Wanted)
    → Covers (want name extras wanted) name extras
Covers-new name extras [] = inl (text_eq_refl name, IsWithin-self extras)
Covers-new name extras ((m, ms) ∷ wanted) = elim (Bool-cases (text_eq m name)) [
  | inl e ↦ rw e (inl (e, IsWithin-right extras ms extras (IsWithin-self extras)))
  | inr e ↦ rw e (inr (Covers-new name extras wanted))
]

pub text_eq-same : (s t : Text) → text_eq s t ≡ true → s ≡ t
unfolding text_eq
text_eq-same [] [] h = refl
text_eq-same [] (b ∷ t) h = cc
text_eq-same (a ∷ s) [] h = cc
text_eq-same (a ∷ s) (b ∷ t) h = ground (arith, text_eq-same s t)

All-append {ℓ κ} :
    {A : Type ℓ} (P : A → Type κ) (xs ys : List A) → All P xs → All P ys → All P (xs ++ ys)
All-append P [] ys a b = b
All-append P (x ∷ xs) ys a b = (a.0, All-append P xs ys a.1 b)

-- The requirement strings of the groups of a manifest.
abbrev pub requirements : List (Option Value) → List Text
requirements [] = []
requirements (group ∷ found) = strings group ++ requirements found

every_member {ℓ} :
    {A : Type ℓ} (xs ys : List A) → ((x : A) → Memᴰ x xs → Memᴰ x ys) → All (λ x. Memᴰ x ys) xs
every_member [] ys f = tt
every_member (x ∷ xs) ys f = (f x (Memᴰ.head refl), every_member xs ys (λ y m. f y (Memᴰ.tail m)))

-- An entry asks for its extras of the distribution that it names, if it names one.
abbrev pub AsksFor : List Wanted → Option Text → List Text → Type 0
AsksFor wanted none extras = Unit
AsksFor wanted (some []) extras = Unit
AsksFor wanted (some (c ∷ name)) extras = Covers wanted (c ∷ name) extras

module _ (u : Unicode) where
  abbrev pub IsAsked : List Wanted → Text → Type 0
  IsAsked wanted entry = AsksFor wanted (requirement_name u entry) (requirement_extras u entry)

  keeps_asked :
      (found : Option Text) (extras : List Text) (n : Option Text) (es : List Text)
      (wanted : List Wanted)
      → AsksFor wanted n es
      → AsksFor (want_named found extras wanted) n es
  keeps_asked none extras n es wanted h = h
  keeps_asked (some []) extras n es wanted h = h
  keeps_asked (some (c ∷ name)) extras none es wanted h = tt
  keeps_asked (some (c ∷ name)) extras (some []) es wanted h = tt
  keeps_asked (some (c ∷ name)) extras (some (d ∷ n)) es wanted h =
      Covers-want (c ∷ name) extras (d ∷ n) es wanted h

  asks_new :
      (found : Option Text) (extras : List Text) (wanted : List Wanted)
      → AsksFor (want_named found extras wanted) found extras
  asks_new none extras wanted = tt
  asks_new (some []) extras wanted = tt
  asks_new (some (c ∷ name)) extras wanted = Covers-new (c ∷ name) extras wanted

  entries_keep :
      (entries : List Text) (entry : Text) (wanted : List Wanted)
      → IsAsked wanted entry
      → IsAsked (want_entries u entries wanted) entry
  unfolding want_entries
  entries_keep [] entry wanted h = h
  entries_keep (e ∷ entries) entry wanted h =
      let now = want_named (requirement_name u e) (requirement_extras u e) wanted in
      entries_keep entries entry now (
        keeps_asked (requirement_name u e) (requirement_extras u e) (requirement_name u entry)
          (requirement_extras u entry) wanted h)

  entries-IsAsked :
      (entries : List Text) (wanted : List Wanted)
      → All (IsAsked (want_entries u entries wanted)) entries
  unfolding want_entries
  entries-IsAsked [] wanted = tt
  entries-IsAsked (e ∷ entries) wanted =
      let now = want_named (requirement_name u e) (requirement_extras u e) wanted in
      (
        entries_keep entries e now
            (asks_new (requirement_name u e) (requirement_extras u e) wanted),
        entries-IsAsked entries now,
      )

  -- An entry of the manifest that names a distribution and asks for an extra of it.
  abbrev pub IsSource : List Text → Text → Text → Type 0
  IsSource entries name extra =
      (entry : Text) × Memᴰ entry entries
      × (requirement_name u entry ≡ some name)
      × (contains extra (requirement_extras u entry) ≡ true)

  abbrev pub IsDeclared : List Text → Wanted → Type 0
  IsDeclared entries w =
      ((entry : Text) × Memᴰ entry entries × (requirement_name u entry ≡ some w.0))
      × All (IsSource entries w.0) w.1

  want-IsDeclared :
      (entries : List Text) (name : Text) (extras : List Text) (wanted : List Wanted)
      → IsDeclared entries (name, extras)
      → All (IsDeclared entries) wanted
      → All (IsDeclared entries) (want name extras wanted)
  want-IsDeclared entries name extras [] d h = (d, tt)
  want-IsDeclared entries name extras ((m, ms) ∷ wanted) d h = elim (Bool-cases (text_eq m name)) [
    | inl e ↦
        let same = subst (λ x. IsDeclared entries (x, extras)) (sym (text_eq-same m name e)) d in
        rw e ((h.0.0, All-append (IsSource entries m) ms extras h.0.1 same.1), h.1)
    | inr e ↦ rw e (h.0, want-IsDeclared entries name extras wanted d h.1)
  ]

  own_sources :
      (entries : List Text) (entry name : Text) (extras : List Text)
      → Memᴰ entry entries
      → requirement_name u entry ≡ some name
      → IsWithin extras (requirement_extras u entry)
      → All (IsSource entries name) extras
  own_sources entries entry name [] m e h = tt
  own_sources entries entry name (x ∷ extras) m e h =
      ((entry, m, e, h.0), own_sources entries entry name extras m e h.1)

  named-IsDeclared :
      (entries : List Text) (entry : Text) (found : Option Text) (wanted : List Wanted)
      → Memᴰ entry entries
      → requirement_name u entry ≡ found
      → All (IsDeclared entries) wanted
      → All (IsDeclared entries) (want_named found (requirement_extras u entry) wanted)
  named-IsDeclared entries entry none wanted m e h = h
  named-IsDeclared entries entry (some []) wanted m e h = h
  named-IsDeclared entries entry (some (c ∷ name)) wanted m e h =
      let extras = requirement_extras u entry in
      want-IsDeclared entries (c ∷ name) extras wanted
        ((entry, m, e), own_sources entries entry (c ∷ name) extras m e (IsWithin-self extras)) h

  entries-IsDeclared :
      (entries more : List Text) (wanted : List Wanted)
      → All (λ e. Memᴰ e entries) more
      → All (IsDeclared entries) wanted
      → All (IsDeclared entries) (want_entries u more wanted)
  unfolding want_entries
  entries-IsDeclared entries [] wanted m h = h
  entries-IsDeclared entries (e ∷ more) wanted m h =
      entries-IsDeclared entries more
        (want_named (requirement_name u e) (requirement_extras u e) wanted) m.1
        (named-IsDeclared entries e (requirement_name u e) wanted m.0 refl h)

  entries-append :
      (a b : List Text) (wanted : List Wanted)
      → want_entries u (a ++ b) wanted ≡ want_entries u b (want_entries u a wanted)
  unfolding want_entries
  entries-append [] b wanted = refl
  entries-append (e ∷ a) b wanted =
      entries-append a b (want_named (requirement_name u e) (requirement_extras u e) wanted)

  groups-entries :
      (found : List (Option Value)) (wanted : List Wanted)
      → want_groups u found wanted ≡ want_entries u (requirements found) wanted
  unfolding want_groups want_entries
  groups-entries [] wanted = refl
  groups-entries (group ∷ found) wanted =
      groups-entries found (want_entries u (strings group) wanted)
      ∙ sym (entries-append (strings group) (requirements found) wanted)

-- Where the groups of a manifest can be read, it declares exactly what its requirement strings ask
-- for: each string that names a distribution has it declared with all of the extras in its
-- brackets, and a declared distribution, and each of its extras, comes from such a string.
pub declared_requirements-IsAsked :
    (u : Unicode) (fields : Fields) (found : List (Option Value))
    → groups fields ≡ answer found
    → (wanted : List Wanted) × (declared_requirements u (table fields) ≡ answer wanted)
      × (wanted ≡ want_groups u found [])
      × All (IsAsked u wanted) (requirements found)
      × All (IsDeclared u (requirements found)) wanted
unfolding declared_requirements
declared_requirements-IsAsked u fields found h =
    let entries = requirements found in
    let asked : All (IsAsked u (want_groups u found [])) entries =
      rw (groups-entries u found []) (entries-IsAsked u entries []) in
    let declared : All (IsDeclared u entries) (want_groups u found []) =
      rw (groups-entries u found [])
        (entries-IsDeclared u entries entries [] (every_member entries entries (λ x m. m)) tt) in
    (want_groups u found [], rw h refl, refl, asked, declared)
