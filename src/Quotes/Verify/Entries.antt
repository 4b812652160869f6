-- ===== src/Quotes/Verify/Entries.antt =====
-- The entries of a cache, and lists without repetition.
use borromean_rings.Base.{
  String, ◌≡◌, refl, ◌⊎◌, inl, inr, Bool, true, false, Option, none, some, List, [], ◌∷◌, ◌++◌,
  ◌==◌, any, some-inj, elem, eq_iff, Bool-cases,
}
use borromean_rings.Quotes.Verify.{lookup}

abbrev pub Entries : Type 0
Entries = List (String × Option String)

abbrev pub has_key : String → Entries → Bool
has_key path entries = any (λ e. e.0 == path) entries

pub lookup-present :
    (path : String) (entries : Entries)
    → has_key path entries ≡ true
    → (t : Option String) × (lookup path entries ≡ some t)
unfolding lookup
lookup-present path [] h = cc
lookup-present path ((p, t) ∷ entries) h = elim (Bool-cases (p == path)) [
  | inl e ↦ rw e (t, refl)
  | inr e ↦ rw e (lookup-present path entries (rw e at h))
]

same_some : (t u : Option String) → some t ≡ some u → t ≡ u
same_some t u h = some-inj t u h

nothing : {u : Option String} → none ≡ some u → ⊥
nothing h = cc

pub lookup-append_cases :
    (path key : String) (t u : Option String) (entries : Entries)
    → lookup path (entries ++ (key, t) ∷ []) ≡ some u
    → (lookup path entries ≡ some u) ⊎ ((key ≡ path) × (t ≡ u))
unfolding lookup
lookup-append_cases path key t u [] h = elim (Bool-cases (key == path)) [
  | inl e ↦ inr ((eq_iff key path).0 e, same_some t u (rw e at h))
  | inr e ↦ elim (nothing (rw e at h)) [ ]
]
lookup-append_cases path key t u ((p, v) ∷ entries) h = elim (Bool-cases (p == path)) [
  | inl e ↦ rw e (inl (rw e at h))
  | inr e ↦ rw e (lookup-append_cases path key t u entries (rw e at h))
]

abbrev pub NoDup : List String → Type 0
NoDup [] = Unit
NoDup (x ∷ xs) = (elem x xs ≡ false) × NoDup xs
