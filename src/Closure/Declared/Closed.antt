-- ===== src/Closure/Declared/Closed.antt =====
-- That the closure of a project holds all that its manifest asks for (closure.py).
use borromean_rings.Base.{
  ℕ, suc, ◌+◌, ◌*◌, ◌<◌, ◌≡◌, refl, Option, none, some, List, [], ◌∷◌, length, All, inl, inr, subst,
}
use borromean_rings.Json.{Value, Fields}
use borromean_rings.Closure.Requirement.{Text, normalise, requirement_name, requirement_extras}
use borromean_rings.Closure.Walk.{Wanted, Index, seed_of}
use borromean_rings.Closure.Reach.{Has, Explored}
use borromean_rings.Closure.Fuel.{Universe, installed_closure-ends}
use borromean_rings.Closure.Declared.{table, answer, groups, want_groups, project_closure}
use borromean_rings.Closure.Declared.Asked.{
  Covers, AsksFor, IsAsked, requirements, text_eq-same, declared_requirements-IsAsked,
}

-- The distribution that a requirement string names, if any, is among the names.
abbrev pub HasNamed : Index → List Text → Option Text → Type 0
HasNamed ix names none = Unit
HasNamed ix names (some []) = Unit
HasNamed ix names (some (c ∷ name)) = Has names (normalise ix.unicode (c ∷ name))

module _ (ix : Index) (names : List Text) where
  covered_name :
      (wanted : List Wanted) (name : Text) (extras : List Text)
      → All (λ w. Has names (seed_of ix w).0) wanted
      → Covers wanted name extras
      → Has names (normalise ix.unicode name)
  covered_name [] name extras h c = elim c [ ]
  covered_name (w ∷ wanted) name extras h (inl c) =
      subst (λ n. Has names (normalise ix.unicode n)) (text_eq-same w.0 name c.0) h.0
  covered_name (w ∷ wanted) name extras h (inr c) = covered_name wanted name extras h.1 c

  named :
      (wanted : List Wanted) (found : Option Text) (extras : List Text)
      → All (λ w. Has names (seed_of ix w).0) wanted
      → AsksFor wanted found extras
      → HasNamed ix names found
  named wanted none extras h a = tt
  named wanted (some []) extras h a = tt
  named wanted (some (c ∷ name)) extras h a = covered_name wanted (c ∷ name) extras h a

  All-named :
      (wanted : List Wanted) (entries : List Text)
      → All (λ w. Has names (seed_of ix w).0) wanted
      → All (IsAsked ix.unicode wanted) entries
      → All (λ e. HasNamed ix names (requirement_name ix.unicode e)) entries
  All-named wanted [] h a = tt
  All-named wanted (e ∷ entries) h a = (
    named wanted (requirement_name ix.unicode e) (requirement_extras ix.unicode e) h a.0,
    All-named wanted entries h a.1,
  )

-- Where the groups of a manifest can be read, finitely many names hold what it declares and the
-- children of each name, and no distribution has more than `width` children, the search with
-- enough steps ends and finds a closure that has every distribution that a requirement string of
-- the manifest names, and in which every name was reached from the declared ones with some extras
-- and has all that it requires at these extras in the closure.
pub project_closure-closed :
    (ix : Index) (fields : Fields) (found : List (Option Value)) (all : List Text) (width fuel : ℕ)
    → groups fields ≡ answer found
    → Universe ix (want_groups ix.unicode found []) all width
    → length all * suc width + length (want_groups ix.unicode found []) < fuel
    → (names : List Text) × (project_closure ix fuel (table fields) ≡ answer (some names))
      × All (λ e. HasNamed ix names (requirement_name ix.unicode e)) (requirements found)
      × All (Explored ix (want_groups ix.unicode found []) names) names
unfolding project_closure
project_closure-closed ix fields found all width fuel h v bound =
    let u = ix.unicode in
    let (wanted, e, same, asked, declared) = declared_requirements-IsAsked u fields found h in
    let (names, f, seeds, explored) =
      installed_closure-ends ix (want_groups u found []) all width fuel v bound in
    (
      names,
      rw (e, same, f) refl,
      All-named ix names (want_groups u found []) (requirements found) seeds (rw same at asked),
      explored,
    )
