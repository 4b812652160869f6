-- ===== src/Base/Decimal.antt =====
-- Counts as decimal texts: Python's `str(n)`, `str.strip`, and a run of ASCII digits read back.
pub mod RoundTrip
use Prim.Native.Char.{Char, code}
use Prim.Native.String.{String, [], ◌∷◌}
use Prim.Native.Nat.{ℕ, zero, suc, ◌+◌, ◌-◌, ◌*◌, ◌/◌, ◌%◌}
use mathlib.Core.Bool.{Bool, true, false, ◌&&◌}
use mathlib.Core.Option.{Option, none, some}
use borromean_rings.Base.Tests.{nat_eq, leb, ltb, if◌then◌else◌}
use borromean_rings.Base.Text.{is_space}

unfoldable pub digit_char : ℕ → Char
digit_char d =
    if nat_eq d 0
    then "0"
    else if nat_eq d 1
    then "1"
    else if nat_eq d 2
    then "2"
    else if nat_eq d 3
    then "3"
    else if nat_eq d 4
    then "4"
    else if nat_eq d 5
    then "5"
    else if nat_eq d 6
    then "6"
    else if nat_eq d 7
    then "7"
    else if nat_eq d 8
    then "8"
    else "9"

-- The digits of `n` in front of `acc`. The fuel bounds the number of digits.
unfoldable pub show_from : ℕ → ℕ → String → String
show_from zero n acc = acc
show_from (suc fuel) n acc =
    let shown = digit_char (n % 10) ∷ acc in
    let rest = show_from fuel (n / 10) shown in if ltb n 10 then shown else rest

-- `str(n)`
unfoldable pub show : ℕ → String
unfolding show_from
show n = show_from (suc n) n []

unfoldable pub is_digit : Char → Bool
is_digit c = leb 48 (code c) && leb (code c) 57

-- A run of ASCII digits, as a number; `none` if another character stands among them.
unfoldable pub from_digits : ℕ → String → Option ℕ
from_digits n [] = some n
from_digits n (c ∷ s) = if is_digit c then from_digits (n * 10 + (code c - 48)) s else none

unfoldable pub strip_left : String → String
strip_left [] = []
strip_left (c ∷ s) = if is_space (code c) then strip_left s else c ∷ s

abbrev pub keep_right : Char → String → String
keep_right c [] = if is_space (code c) then [] else c ∷ []
keep_right c (d ∷ s) = c ∷ d ∷ s

unfoldable pub strip_right : String → String
strip_right [] = []
strip_right (c ∷ s) = keep_right c (strip_right s)

-- `s.strip()`
unfoldable pub strip : String → String
unfolding strip_left strip_right
strip s = strip_right (strip_left s)
