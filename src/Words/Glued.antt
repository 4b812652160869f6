-- ===== src/Words/Glued.antt =====
-- Prefixes and cuts of a text that was put together from two.
use Prim.Native.Char.{Char, code}
use borromean_rings.Base.{
  ℕ, String, ◌≡◌, ◌≢◌, refl, ap, true, false, ◌||◌, some, arith, nat_eq, nat_eq_iff,
}
use borromean_rings.Words.{
  cut_front, starts_with, remove_prefix, has_char, strip_front, after_char, glue,
}

pub glue_assoc : (a b c : String) → glue (glue a b) c ≡ glue a (glue b c)
glue_assoc String.[] b c = refl
glue_assoc (String.◌∷◌ d a) b c = ap (String.◌∷◌ d) (glue_assoc a b c)

nat_eq_refl : (n : ℕ) → nat_eq n n ≡ true
nat_eq_refl n = (nat_eq_iff n n).1 refl

pub cut_front-glue : (p s : String) → cut_front (glue p s) p ≡ some s
unfolding cut_front
cut_front-glue String.[] s = refl
cut_front-glue (String.◌∷◌ c p) s = rw (nat_eq_refl (code c)) (cut_front-glue p s)

pub starts_with-glue : (p s : String) → starts_with (glue p s) p ≡ true
unfolding starts_with
starts_with-glue p s = rw (cut_front-glue p s) refl

pub remove_prefix-glue : (p s : String) → remove_prefix (glue p s) p ≡ s
unfolding remove_prefix
remove_prefix-glue p s = rw (cut_front-glue p s) refl

-- A text that does not start with the first part of a prefix does not start with the prefix.
pub starts_with-longer :
    (s p q : String) → starts_with s p ≡ false → starts_with s (glue p q) ≡ false
unfolding starts_with cut_front
starts_with-longer s String.[] q h = cc
starts_with-longer String.[] (String.◌∷◌ c p) q h = refl
starts_with-longer (String.◌∷◌ d s) (String.◌∷◌ c p) q h = ground (arith, starts_with-longer s p q)

-- A text that is not empty decides alone whether it starts with a certain character.
pub starts_with-first :
    (s t : String)
    → s ≢ ""
    → (c : Char) → starts_with (glue s t) (String.◌∷◌ c "") ≡ starts_with s (String.◌∷◌ c "")
unfolding starts_with cut_front
starts_with-first String.[] t h c = absurd (h refl)
starts_with-first (String.◌∷◌ d s) t h c = ground arith

pub strip_front_lem :
    (s : String) (c : Char) → starts_with s (String.◌∷◌ c "") ≡ false → strip_front (code c) s ≡ s
unfolding starts_with cut_front strip_front
strip_front_lem String.[] c h = refl
strip_front_lem (String.◌∷◌ d s) c h = ground arith

pub has_char-glue : (c : ℕ) (s t : String) → has_char c (glue s t) ≡ (has_char c s || has_char c t)
unfolding has_char
has_char-glue c String.[] t = refl
has_char-glue c (String.◌∷◌ d s) t = ground (arith, has_char-glue c s t)

pub after_char-glue :
    (c : Char) (s t : String)
    → has_char (code c) s ≡ false
    → after_char (code c) (glue s (String.◌∷◌ c t)) ≡ t
unfolding has_char after_char
after_char-glue c String.[] t h = rw (nat_eq_refl (code c)) refl
after_char-glue c (String.◌∷◌ d s) t h = ground (arith, after_char-glue c s t)

pub starts_with-absent :
    (s : String) (c : Char) → has_char (code c) s ≡ false → starts_with s (String.◌∷◌ c "") ≡ false
unfolding has_char starts_with cut_front
starts_with-absent String.[] c h = refl
starts_with-absent (String.◌∷◌ d s) c h = ground arith
