-- ===== src/Base/Text.antt =====
-- Text as code points: Python's white space, its line breaks, and `splitlines`.
pub mod Lines
use borromean_rings.Base.Tests.{nat_eq, leb, Bool-cases, if◌then◌else◌}
use borromean_rings.Base.Lists.{All, any}
use Prim.Native.Nat.{ℕ, zero, suc}
use mathlib.Core.Path.{◌≡◌, refl, ap, ◌∙◌}
use mathlib.Core.Logic.{◌⊎◌, inl, inr}
use mathlib.Core.Bool.{Bool, true, false, ◌&&◌, ◌||◌, not}
use mathlib.Core.List.{List, [], ◌∷◌, ◌++◌, append-nil, append_assoc}
use native.Mathlib.Omega.{arith}

-- The characters that end a line in `str.splitlines`.
unfoldable pub is_break : ℕ → Bool
is_break c =
    leb 10 c && leb c 13 || leb 28 c && leb c 30 || nat_eq c 133 || nat_eq c 8232 || nat_eq c 8233

-- `str.isspace`, of one character.
unfoldable pub is_space : ℕ → Bool
is_space c =
    leb 9 c && leb c 13
    || leb 28 c && leb c 32
    || nat_eq c 133
    || nat_eq c 160
    || nat_eq c 5760
    || leb 8192 c && leb c 8202
    || nat_eq c 8232
    || nat_eq c 8233
    || nat_eq c 8239
    || nat_eq c 8287
    || nat_eq c 12288

-- `not line.strip()`
unfoldable pub is_blank : List ℕ → Bool
is_blank line = not (any (λ c. not (is_space c)) line)

-- What follows the last break is a line only if it is not empty.
abbrev pub last_line : List ℕ → List (List ℕ)
last_line [] = []
last_line (c ∷ line) = (c ∷ line) ∷ []

-- `cr` is set just after a carriage return, whose line feed belongs to the same break.
unfoldable pub split_from : Bool → List ℕ → List ℕ → List (List ℕ)
split_from cr line [] = last_line line
split_from cr line (c ∷ s) = elim (cr && nat_eq c 10) [
  | true ↦ split_from false line s
  | false ↦ elim (is_break c) [
    | true ↦ line ∷ split_from (nat_eq c 13) [] s
    | false ↦ split_from false (line ++ c ∷ []) s
  ]
]

unfoldable pub splitlines : List ℕ → List (List ℕ)
unfolding split_from
splitlines s = split_from false [] s
