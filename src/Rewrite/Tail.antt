-- ===== src/Rewrite/Tail.antt =====
-- The bounded read of a transcript (rewrite_contract.py: read_tail).
pub mod Numbered
use borromean_rings.Base.{
  ℕ, zero, suc, ◌+◌, ◌-◌, String, Bool, true, false, not, ◌==◌, List, [], ◌∷◌, nat_eq, ltb, length,
  if◌then◌else◌,
}

abbrev pub default_tail_bytes : ℕ
default_tail_bytes = 8388608

-- `data.split("\n")`, of bytes or of characters.
abbrev pub push_first : ℕ → List (List ℕ) → List (List ℕ)
push_first c [] = (c ∷ []) ∷ []
push_first c (line ∷ lines) = (c ∷ line) ∷ lines

unfoldable pub split_feeds : List ℕ → List (List ℕ)
split_feeds [] = [] ∷ []
split_feeds (c ∷ s) =
    let rest = split_feeds s in if nat_eq c 10 then [] ∷ rest else push_first c rest

unfoldable pub count_feeds : List ℕ → ℕ
count_feeds [] = 0
count_feeds (c ∷ s) = let rest = count_feeds s in if nat_eq c 10 then suc rest else rest

-- The bytes before the tail, and the tail.
unfoldable pub cut_at : ℕ → List ℕ → List ℕ × List ℕ
cut_at zero bytes = ([], bytes)
cut_at (suc n) [] = ([], [])
cut_at (suc n) (b ∷ bytes) = let (skipped, tail) = cut_at n bytes in (b ∷ skipped, tail)

abbrev pub rest_lines : List (List ℕ) → List (List ℕ)
rest_lines [] = []
rest_lines (line ∷ lines) = lines

-- `decode` is the decoding of UTF-8 with errors replaced. The prefix is counted in chunks in the
-- source, which changes no count.
abbrev pub numbered_tail : (List ℕ → List ℕ) → ℕ → List ℕ × List ℕ → ℕ × List (List ℕ)
numbered_tail decode zero (skipped, tail) = (suc (count_feeds skipped), split_feeds (decode tail))
numbered_tail decode (suc n) (skipped, tail) =
    (suc (suc (count_feeds skipped)), rest_lines (split_feeds (decode tail)))

-- `max(0, size - max_bytes)`; a difference of natural numbers stops at 0.
unfoldable pub read_bytes : (List ℕ → List ℕ) → ℕ → List ℕ → ℕ × List (List ℕ)
unfolding cut_at count_feeds split_feeds
read_bytes decode max_bytes bytes =
    let begin_ = length bytes - max_bytes in numbered_tail decode begin_ (cut_at begin_ bytes)
