-- ===== src/StateHome/Inside.antt =====
-- What `is_inside` decides, and that paths are compared exactly.
use borromean_rings.Base.{
  String, ◌≡◌, refl, ap, ◌↔◌, true, false, [], ◌∷◌, ◌++◌, ◌==◌, eq_iff, eq_refl, arith, Bool-cases,
  inl, inr,
}
use borromean_rings.StateHome.{FilePath, common_path, path_eq, is_inside}

pub path_eq_refl : (p : FilePath) → path_eq p p ≡ true
unfolding path_eq
path_eq_refl [] = refl
path_eq_refl (a ∷ p) = rw (eq_refl, path_eq_refl p)

pub eq-of-path_eq : (p q : FilePath) → path_eq p q ≡ true → p ≡ q
unfolding path_eq
eq-of-path_eq [] [] h = refl
eq-of-path_eq (a ∷ p) (b ∷ q) h = ground (arith, eq_iff a b, eq-of-path_eq p q)
eq-of-path_eq [] (b ∷ q) h = cc
eq-of-path_eq (a ∷ p) [] h = cc

common_path-append : (root rest : FilePath) → common_path (root ++ rest) root ≡ root
unfolding common_path
common_path-append [] [] = refl
common_path-append [] (a ∷ rest) = refl
common_path-append (a ∷ root) rest = rw eq_refl (ap (◌∷◌ a) (common_path-append root rest))

not_inside :
    (a b : String) (path root : FilePath)
    → (a == b) ≡ false
    → is_inside (a ∷ path) (b ∷ root) ≡ false
unfolding is_inside
not_inside a b path root h = rw h

rest_of :
    (path root : FilePath) → is_inside path root ≡ true → (rest : FilePath) × (path ≡ root ++ rest)
unfolding is_inside
rest_of path [] h = (path, refl)
rest_of [] (b ∷ root) h = cc
rest_of (a ∷ path) (b ∷ root) h = elim (Bool-cases (a == b)) [
  | inl e ↦
      let (rest, f) = rest_of path root (ground (arith, eq_refl b)) in
      (rest, cc ((eq_iff a b).0 e, f))
  | inr e ↦ cc (not_inside a b path root e)
]

-- `is_inside` holds of two resolved paths exactly when the first is the second, or below it.
pub is_inside_iff :
    (path root : FilePath)
    → (is_inside path root ≡ true) ↔ ((rest : FilePath) × (path ≡ root ++ rest))
unfolding is_inside
is_inside_iff path root =
    (rest_of path root, λ (rest, e). rw e (rw common_path-append (path_eq_refl root)))
