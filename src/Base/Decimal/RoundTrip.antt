-- ===== src/Base/Decimal/RoundTrip.antt =====
-- A count that is printed reads back as the same count.
use Prim.Native.Char.{Char, code}
use Prim.Native.String.{String, [], ◌∷◌}
use Prim.Native.Nat.{ℕ, zero, suc, ◌+◌, ◌-◌, ◌*◌, ◌/◌, ◌%◌, ◌<◌}
use mathlib.Core.Path.{◌≡◌, refl}
use mathlib.Core.Bool.{true, false}
use mathlib.Core.Option.{some}
use mathlib.Core.Logic.{inl, inr}
use native.Mathlib.Omega.{arith}
use borromean_rings.Base.Tests.{ltb, Bool-cases}
use borromean_rings.Base.Text.{is_space}
use borromean_rings.Base.Decimal.{
  digit_char, show_from, show, is_digit, from_digits, strip, strip_right, keep_right,
}

digit_char-digit :
    (d : ℕ) → d < 10 → (is_digit (digit_char d) ≡ true) × (code (digit_char d) - 48 ≡ d)
unfolding digit_char is_digit
digit_char-digit zero h = (refl, refl)
digit_char-digit (suc zero) h = (refl, refl)
digit_char-digit (suc (suc zero)) h = (refl, refl)
digit_char-digit (suc (suc (suc zero))) h = (refl, refl)
digit_char-digit (suc (suc (suc (suc zero)))) h = (refl, refl)
digit_char-digit (suc (suc (suc (suc (suc zero))))) h = (refl, refl)
digit_char-digit (suc (suc (suc (suc (suc (suc zero)))))) h = (refl, refl)
digit_char-digit (suc (suc (suc (suc (suc (suc (suc zero))))))) h = (refl, refl)
digit_char-digit (suc (suc (suc (suc (suc (suc (suc (suc zero)))))))) h = (refl, refl)
digit_char-digit (suc (suc (suc (suc (suc (suc (suc (suc (suc zero))))))))) h = (refl, refl)
digit_char-digit (suc (suc (suc (suc (suc (suc (suc (suc (suc (suc d)))))))))) h =
    absurd (omega arith)

from_digits-digit :
    (n d : ℕ) (s : String) → d < 10 → from_digits n (digit_char d ∷ s) ≡ from_digits (n * 10 + d) s
unfolding from_digits
from_digits-digit n d s h = rw ((digit_char-digit d h).0, (digit_char-digit d h).1)

-- Printing `n` in front of `acc` and reading on is reading `acc` with `n` as the number so far.
from_digits-show_from :
    (fuel n : ℕ) (acc : String)
    → n < fuel
    → from_digits 0 (show_from fuel n acc) ≡ from_digits n acc
unfolding show_from
from_digits-show_from zero n acc h = elim h [ ]
from_digits-show_from (suc fuel) n acc h = elim (Bool-cases (ltb n 10)) [
  | inl small ↦
      let e : 0 * 10 + n % 10 ≡ n = ground arith in
      rw small (rw (from_digits-digit 0 (n % 10) acc (omega arith)) (rw e))
  | inr large ↦
      let e : n / 10 * 10 + n % 10 ≡ n = omega arith in
      rw large (
        rw (from_digits-show_from fuel (n / 10) (digit_char (n % 10) ∷ acc) (ground arith))
          (rw (from_digits-digit (n / 10) (n % 10) acc (omega arith)) (rw e)))
]

pub from_digits-show : (n : ℕ) → from_digits 0 (show n) ≡ some n
unfolding show from_digits
from_digits-show n = from_digits-show_from (suc n) n [] (omega arith)

abbrev AllDigits : String → Type 0
AllDigits [] = Unit
AllDigits (c ∷ s) = (is_digit c ≡ true) × AllDigits s

AllDigits-show_from : (fuel n : ℕ) (acc : String) → AllDigits acc → AllDigits (show_from fuel n acc)
unfolding show_from
AllDigits-show_from zero n acc h = h
AllDigits-show_from (suc fuel) n acc h = elim (Bool-cases (ltb n 10)) [
  | inl small ↦ rw small ((digit_char-digit (n % 10) (omega arith)).0, h)
  | inr large ↦ rw large (
      AllDigits-show_from fuel (n / 10) (digit_char (n % 10) ∷ acc)
        ((digit_char-digit (n % 10) (omega arith)).0, h))
]

digit_not_space : (c : Char) → is_digit c ≡ true → is_space (code c) ≡ false
unfolding is_digit is_space
digit_not_space c h = ground arith

strip_right-digits : (s : String) → AllDigits s → strip_right s ≡ s
unfolding strip_right
strip_right-digits [] h = refl
strip_right-digits (c ∷ []) h = rw (digit_not_space c h.0)
strip_right-digits (c ∷ d ∷ s) h = rw (strip_right-digits (d ∷ s) h.1, keep_right)

pub strip-digits : (s : String) → AllDigits s → strip s ≡ s
unfolding strip
strip-digits [] h = refl
strip-digits (c ∷ s) h = rw (digit_not_space c h.0) (strip_right-digits (c ∷ s) h)

pub AllDigits-show : (n : ℕ) → AllDigits (show n)
unfolding show
AllDigits-show n = AllDigits-show_from (suc n) n [] tt

-- A shown number has a first digit.
show_from-cons :
    (fuel n : ℕ) (c : Char) (acc : String)
    → (d : Char) × (s : String) × (show_from fuel n (c ∷ acc) ≡ d ∷ s)
unfolding show_from
show_from-cons zero n c acc = (c, acc, refl)
show_from-cons (suc fuel) n c acc = elim (Bool-cases (ltb n 10)) [
  | inl small ↦ (digit_char (n % 10), c ∷ acc, rw small)
  | inr large ↦
      let (d, s, e) = show_from-cons fuel (n / 10) (digit_char (n % 10)) (c ∷ acc) in
      (d, s, rw large e)
]

pub show-cons : (n : ℕ) → (d : Char) × (s : String) × (show n ≡ d ∷ s)
unfolding show show_from
show-cons n = elim (Bool-cases (ltb n 10)) [
  | inl small ↦ (digit_char (n % 10), [], rw small)
  | inr large ↦
      let (d, s, e) = show_from-cons n (n / 10) (digit_char (n % 10)) [] in (d, s, rw large e)
]
