-- ===== src/Closure/Reach.antt =====
-- What the walk of closure.py visits: all of the seeds, and nothing out of their reach.
use mathlib.Core.List.{Memᴰ}
use borromean_rings.Base.{
  ℕ, zero, suc, ◌≡◌, refl, true, false, some, List, [], ◌∷◌, All, map, arith, Bool-cases, inl, inr,
  nat_eq_iff, subst, sym, ◌∙◌,
}
use borromean_rings.Closure.Requirement.{Text, text_eq, contains}
use borromean_rings.Closure.Walk.{
  Wanted, Index, children, push_all, walk, seed_of, seeded, installed_closure,
}

-- A text that a list of texts has.
abbrev pub Has : List Text → Text → Type 0
Has names name = contains name names ≡ true

-- What can be reached from the seeds: a seed, or a child of what can be reached.
pub data Reachable (ix : Index) (seeds : List Wanted) : Wanted → Type 0 where
  seed : (w : Wanted) → Memᴰ w seeds → Reachable ix seeds (seed_of ix w)
  child :
      (name : Text) (extras : List Text) (w : Wanted)
      → Reachable ix seeds (name, extras)
      → Memᴰ w (children ix name extras)
      → Reachable ix seeds w

-- A name that was reached with some extras, whose children at these extras are all listed.
abbrev pub Explored : Index → List Wanted → List Text → Text → Type 0
Explored ix seeds names name =
    (extras : List Text) × Reachable ix seeds (name, extras)
    × All (λ (w : Wanted). Has names w.0) (children ix name extras)

pub text_eq_refl : (s : Text) → text_eq s s ≡ true
unfolding text_eq
text_eq_refl [] = refl
text_eq_refl (a ∷ s) = rw ((nat_eq_iff a a).1 refl, text_eq_refl s)

Has-head : (name : Text) (seen : List Text) → Has (name ∷ seen) name
Has-head name seen = rw text_eq_refl

Has-tail : (n name : Text) (seen : List Text) → Has seen n → Has (name ∷ seen) n
Has-tail n name seen h = ground arith

pub walk-again :
    (ix : Index) (fuel : ℕ) (name : Text) (extras : List Text) (pending : List Wanted)
    (seen : List Text)
    → contains name seen ≡ true
    → walk ix (suc fuel) ((name, extras) ∷ pending) seen ≡ walk ix fuel pending seen
unfolding walk
walk-again ix fuel name extras pending seen h = rw h

pub walk-first :
    (ix : Index) (fuel : ℕ) (name : Text) (extras : List Text) (pending : List Wanted)
    (seen : List Text)
    → contains name seen ≡ false
    → walk ix (suc fuel) ((name, extras) ∷ pending) seen
      ≡ walk ix fuel (push_all (children ix name extras) pending) (name ∷ seen)
unfolding walk
walk-first ix fuel name extras pending seen h = rw h

some-inj : {A : Type 0} (a b : A) → some a ≡ some b → a ≡ b
some-inj a b h = cc

walk-grows :
    (ix : Index) (fuel : ℕ) (pending : List Wanted) (seen names : List Text)
    → walk ix fuel pending seen ≡ some names
    → (n : Text) → Has seen n
    → Has names n
unfolding walk
walk-grows ix zero pending seen names h n i = cc
walk-grows ix (suc fuel) [] seen names h n i = subst (λ x. Has x n) (some-inj seen names h) i
walk-grows ix (suc fuel) ((name, extras) ∷ pending) seen names h n i =
    elim (Bool-cases (contains name seen)) [
      | inl e ↦
          walk-grows ix fuel pending seen names
            (sym (walk-again ix fuel name extras pending seen e) ∙ h) n i
      | inr e ↦
          walk-grows ix fuel (push_all (children ix name extras) pending) (name ∷ seen) names
            (sym (walk-first ix fuel name extras pending seen e) ∙ h) n (Has-tail n name seen i)
    ]

-- What holds of the pushed elements and of the stack holds of both, and back.
module _ (P : Wanted → Type 0) where
  pub All-push :
      (more pending : List Wanted) → All P more → All P pending → All P (push_all more pending)
  All-push [] pending a b = b
  All-push (w ∷ more) pending (p, a) b = All-push more (w ∷ pending) a (p, b)

  pushed : (more pending : List Wanted) → All P (push_all more pending) → All P more × All P pending
  pushed [] pending a = (tt, a)
  pushed (w ∷ more) pending a = let (b, (p, c)) = pushed more (w ∷ pending) a in ((p, b), c)

walk-pending :
    (ix : Index) (fuel : ℕ) (pending : List Wanted) (seen names : List Text)
    → walk ix fuel pending seen ≡ some names
    → All (λ (w : Wanted). Has names w.0) pending
unfolding walk
walk-pending ix zero pending seen names h = cc
walk-pending ix (suc fuel) [] seen names h = tt
walk-pending ix (suc fuel) ((name, extras) ∷ pending) seen names h =
    elim (Bool-cases (contains name seen)) [
      | inl e ↦
          let f = sym (walk-again ix fuel name extras pending seen e) ∙ h in
          (
            walk-grows ix fuel pending seen names f name e,
            walk-pending ix fuel pending seen names f,
          )
      | inr e ↦
          let f = sym (walk-first ix fuel name extras pending seen e) ∙ h in
          let more = push_all (children ix name extras) pending in
          (
            walk-grows ix fuel more (name ∷ seen) names f name (Has-head name seen),
            (pushed (λ (w : Wanted). Has names w.0) (children ix name extras) pending
                (walk-pending ix fuel more (name ∷ seen) names f)).1,
          )
    ]

All-of {ℓ} : {A : Type 0} (P : A → Type ℓ) (xs : List A) → ((x : A) → Memᴰ x xs → P x) → All P xs
All-of P [] f = tt
All-of P (x ∷ xs) f = (f x (Memᴰ.head refl), All-of P xs (λ y m. f y (Memᴰ.tail m)))

pub All-map :
    (P : Wanted → Type 0) (f : Wanted → Wanted) (xs : List Wanted)
    → All (λ w. P (f w)) xs
    → All P (map f xs)
All-map P f [] a = tt
All-map P f (x ∷ xs) (p, a) = (p, All-map P f xs a)

map-All :
    (P : Wanted → Type 0) (f : Wanted → Wanted) (xs : List Wanted)
    → All P (map f xs)
    → All (λ w. P (f w)) xs
map-All P f [] a = tt
map-All P f (x ∷ xs) (p, a) = (p, map-All P f xs a)

walk-Explored :
    (ix : Index) (seeds : List Wanted) (fuel : ℕ) (pending : List Wanted) (seen names : List Text)
    → All (Reachable ix seeds) pending
    → All (Explored ix seeds names) seen
    → walk ix fuel pending seen ≡ some names
    → All (Explored ix seeds names) names
unfolding walk
walk-Explored ix seeds zero pending seen names r x h = cc
walk-Explored ix seeds (suc fuel) [] seen names r x h =
    subst (All (Explored ix seeds names)) (some-inj seen names h) x
walk-Explored ix seeds (suc fuel) ((name, extras) ∷ pending) seen names (r, rs) x h =
    elim (Bool-cases (contains name seen)) [
      | inl e ↦
          walk-Explored ix seeds fuel pending seen names rs x
            (sym (walk-again ix fuel name extras pending seen e) ∙ h)
      | inr e ↦
          let f = sym (walk-first ix fuel name extras pending seen e) ∙ h in
          let more = children ix name extras in
          walk-Explored ix seeds fuel (push_all more pending) (name ∷ seen) names
            (All-push (Reachable ix seeds) more pending
              (All-of (Reachable ix seeds) more (λ w m. Reachable.child name extras w r m)) rs)
            (
              (
                extras,
                r,
                (pushed (λ (w : Wanted). Has names w.0) more pending
                    (walk-pending ix fuel (push_all more pending) (name ∷ seen) names f)).0,
              ),
              x,
            )
            f
    ]

-- The closure, once it is found, has the name of every seed, and each of its names was reached from
-- the seeds with some extras, with every distribution it requires at these extras in the closure
-- too.
pub closure_closed :
    (ix : Index) (fuel : ℕ) (seeds : List Wanted) (names : List Text)
    → installed_closure ix fuel seeds ≡ some names
    → All (λ (w : Wanted). Has names (seed_of ix w).0) seeds × All (Explored ix seeds names) names
unfolding installed_closure
closure_closed ix fuel seeds names h = (
  map-All (λ (w : Wanted). Has names w.0) (seed_of ix) seeds
      (pushed (λ (w : Wanted). Has names w.0) (map (seed_of ix) seeds) []
        (walk-pending ix fuel (seeded ix seeds) [] names h)).0,
  walk-Explored ix seeds fuel (seeded ix seeds) [] names
      (All-push (Reachable ix seeds) (map (seed_of ix) seeds) []
        (All-map (Reachable ix seeds) (seed_of ix) seeds
          (All-of (λ w. Reachable ix seeds (seed_of ix w)) seeds Reachable.seed))
        tt)
      tt h,
)
