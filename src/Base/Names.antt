-- ===== src/Base/Names.antt =====
-- `sorted(set(…))` of names, in the order of their code points.
use Prim.Native.Nat.{Ordering}
use Prim.Native.String.{String, compare}
use mathlib.Core.Path.{◌≡◌, refl, sym, ◌∙◌, ap, subst}
use mathlib.Core.Bool.{Bool, true, false, ◌||◌}
use mathlib.Core.List.{List, [], ◌∷◌}
use native.Mathlib.Omega.{arith}
use text.Mathlib.Text.{◌==◌}
use text.Mathlib.TextEquality.{eq_iff}
use mathlib.Core.Logic.{inl, inr}
use text.Mathlib.TextPositions.{eq_refl}
use borromean_rings.Base.Lists.{elem, All}
use borromean_rings.Base.Tests.{Bool-cases, if◌then◌else◌}

abbrev pub name_lt : String → String → Bool
name_lt a b = elim (compare a b) [ Ordering.lt ↦ true | _ ↦ false ]

unfoldable pub insert_name : String → List String → List String
insert_name n [] = n ∷ []
insert_name n (m ∷ ms) =
    let rest = insert_name n ms in
    if n == m then m ∷ ms else if name_lt n m then n ∷ m ∷ ms else m ∷ rest

unfoldable pub sorted_names : List String → List String
unfolding insert_name
sorted_names [] = []
sorted_names (n ∷ ns) = insert_name n (sorted_names ns)

elem-insert_name :
    (x n : String) (ms : List String) → elem x (insert_name n ms) ≡ (x == n || elem x ms)
unfolding insert_name
elem-insert_name x n [] = refl
elem-insert_name x n (m ∷ ms) = ground (arith, elem-insert_name x n ms, eq_iff n m)

pub elem-sorted_names : (x : String) (ns : List String) → elem x (sorted_names ns) ≡ elem x ns
unfolding sorted_names
elem-sorted_names x [] = refl
elem-sorted_names x (n ∷ ns) =
    rw (elem-insert_name x n (sorted_names ns), elem-sorted_names x ns) refl

-- What holds of each member of a list, and of each of its entries.
pub elem-All :
    (P : String → Type 0) (xs : List String) → ((x : String) → elem x xs ≡ true → P x) → All P xs
elem-All P [] f = tt
elem-All P (x ∷ xs) f = (f x (rw (eq_refl x) refl), elem-All P xs (λ y h. f y (ground (arith, h))))

pub All-elem :
    (P : String → Type 0) (xs : List String) (x : String) → All P xs → elem x xs ≡ true → P x
All-elem P [] x a h = cc
All-elem P (y ∷ ys) x (a, b) h = elim (Bool-cases (x == y)) [
  | inl e ↦ subst P (sym ((eq_iff x y).0 e)) a
  | inr e ↦ All-elem P ys x b (ground (arith, e, h))
]

pub unsorted : (P : String → Type 0) (xs : List String) → All P (sorted_names xs) → All P xs
unsorted P xs a =
    elem-All P xs (λ x h. All-elem P (sorted_names xs) x a (elem-sorted_names x xs ∙ h))

-- A member of a list that is not its first is one of the rest.
pub elem_other :
    (n m : String) (ns : List String) → (n == m) ≡ false → elem m (n ∷ ns) ≡ true → elem m ns ≡ true
elem_other n m ns f e = elim (Bool-cases (m == n)) [
  | inl g ↦ cc (f, ap (λ x. n == x) ((eq_iff m n).0 g), eq_refl n)
  | inr g ↦ ground (arith, g, e)
]
