-- ===== src/Rewrite/Tail/Numbered.antt =====
-- That the bounded read numbers its lines as the whole file does.
use borromean_rings.Base.{
  ℕ, zero, suc, ◌-◌, ◌≡◌, refl, sym, ◌∙◌, ap, subst, length-append, List, [], ◌∷◌, ◌++◌, map,
  nat_eq, length, arith, Bool-cases, inl, inr,
}
use borromean_rings.Rewrite.Tail.{
  push_first, split_feeds, count_feeds, cut_at, rest_lines, numbered_tail, read_bytes,
}

-- What the decoding keeps: a line feed is decoded alone, so lines can be decoded one by one.
abbrev pub KeepsLines : (List ℕ → List ℕ) → Type 0
KeepsLines decode = (data_ : List ℕ) → split_feeds (decode data_) ≡ map decode (split_feeds data_)

push_first-first :
    (c : ℕ) (ls : List (List ℕ)) → (f : List ℕ) × (push_first c ls ≡ f ∷ rest_lines ls)
push_first-first c [] = (c ∷ [], refl)
push_first-first c (l ∷ ls) = (c ∷ l, refl)

shape :
    (ls : List (List ℕ))
    → (f : List ℕ) × (rest : List (List ℕ)) × (ls ≡ f ∷ rest)
    → (f : List ℕ) × (ls ≡ f ∷ rest_lines ls)
shape [] (f, rest, e) = cc
shape (l ∷ ls) (f, rest, e) = (l, refl)

split_feeds-first : (s : List ℕ) → (f : List ℕ) × (split_feeds s ≡ f ∷ rest_lines (split_feeds s))
unfolding split_feeds
split_feeds-first [] = ([], refl)
split_feeds-first (c ∷ s) = elim (Bool-cases (nat_eq c 10)) [
  | inl e ↦ rw e ([], refl)
  | inr e ↦ rw e (
      let (f, q) = push_first-first c (split_feeds s) in
      shape (push_first c (split_feeds s)) (f, rest_lines (split_feeds s), q))
]

cut_at-append : (n : ℕ) (bytes : List ℕ) → (cut_at n bytes).0 ++ (cut_at n bytes).1 ≡ bytes
unfolding cut_at
cut_at-append zero bytes = refl
cut_at-append (suc n) [] = refl
cut_at-append (suc n) (b ∷ bytes) = ap (◌∷◌ b) (cut_at-append n bytes)

abbrev Joint : List ℕ → List ℕ → List (List ℕ) → Type 0
Joint p t whole =
    (before : List (List ℕ)) × (first : List ℕ) × (whole
      ≡ before ++ first ∷ rest_lines (split_feeds t))
    × (length before ≡ count_feeds p)

pushed :
    (c : ℕ) (p t : List ℕ) (whole : List (List ℕ))
    → Joint p t whole
    → Joint p t (push_first c whole)
pushed c p t whole ([], first, e, size) = ([], c ∷ first, ap (push_first c) e, size)
pushed c p t whole (b ∷ before, first, e, size) =
    ((c ∷ b) ∷ before, first, ap (push_first c) e, size)

-- What precedes the second line of a tail has as many lines more as it has line feeds.
split_feeds-append : (p t : List ℕ) → Joint p t (split_feeds (p ++ t))
unfolding split_feeds count_feeds
split_feeds-append [] t = let (f, e) = split_feeds-first t in ([], f, e, refl)
split_feeds-append (c ∷ p) t = elim (Bool-cases (nat_eq c 10)) [
  | inl e ↦
      let (before, first, whole, size) = split_feeds-append p t in
      rw e ([] ∷ before, first, ap (◌∷◌ []) whole, omega (arith, size))
  | inr e ↦ rw e (pushed c p t (split_feeds (p ++ t)) (split_feeds-append p t))
]

map-rest :
    (f : List ℕ → List ℕ) (ls : List (List ℕ)) → rest_lines (map f ls) ≡ map f (rest_lines ls)
map-rest f [] = refl
map-rest f (l ∷ ls) = refl

map-append : (f : List ℕ → List ℕ) (xs ys : List (List ℕ)) → map f (xs ++ ys) ≡ map f xs ++ map f ys
map-append f [] ys = refl
map-append f (x ∷ xs) ys = ap (◌∷◌ (f x)) (map-append f xs ys)

length-map : (f : List ℕ → List ℕ) (xs : List (List ℕ)) → length (map f xs) ≡ length xs
length-map f [] = refl
length-map f (x ∷ xs) = ap suc (length-map f xs)

snoc-append :
    (xs : List (List ℕ)) (y : List ℕ) (ys : List (List ℕ)) → xs ++ y ∷ ys ≡ (xs ++ y ∷ []) ++ ys
snoc-append [] y ys = refl
snoc-append (x ∷ xs) y ys = ap (◌∷◌ x) (snoc-append xs y ys)

module _ (decode : List ℕ → List ℕ) (keeps : KeepsLines decode) where
  abbrev Ending : List ℕ → ℕ × List (List ℕ) → Type 0
  Ending bytes r =
      (before : List (List ℕ)) × (map decode (split_feeds bytes) ≡ before ++ r.1)
      × (suc (length before) ≡ r.0)

  tail-numbered :
      (skipped tail : List ℕ)
      → Ending
          (skipped ++ tail)
          (suc (suc (count_feeds skipped)), rest_lines (split_feeds (decode tail)))
  tail-numbered skipped tail =
      let (before, first, whole, size) = split_feeds-append skipped tail in
      let ends : rest_lines (split_feeds (decode tail))
          ≡ map decode (rest_lines (split_feeds tail)) =
        ap rest_lines (keeps tail) ∙ map-rest decode (split_feeds tail) in
      (
        map decode before ++ decode first ∷ [],
        ap (map decode) whole
            ∙ map-append decode before (first ∷ rest_lines (split_feeds tail))
            ∙ ap (λ ls. map decode before ++ decode first ∷ ls) (sym ends)
            ∙ snoc-append (map decode before) (decode first)
                (rest_lines (split_feeds (decode tail))),
        omega (
          arith,
          size,
          length-append (map decode before) (decode first ∷ []),
          length-map decode before,
        ),
      )

  numbered : (n : ℕ) (bytes : List ℕ) → Ending bytes (numbered_tail decode n (cut_at n bytes))
  unfolding cut_at count_feeds
  numbered zero bytes = ([], sym (keeps bytes), refl)
  numbered (suc n) bytes =
      let (skipped, tail) = cut_at (suc n) bytes in
      subst (λ b. Ending b (numbered_tail decode (suc n) (cut_at (suc n) bytes)))
        (cut_at-append (suc n) bytes)
        (tail-numbered (cut_at (suc n) bytes).0 (cut_at (suc n) bytes).1)

  -- The lines that are read are the last ones of the whole file, and the first of them is reported
  -- with the number that it has there, however many bytes are read, for a decoding that keeps each
  -- line apart.
  pub read_bytes-numbered :
      (max_bytes : ℕ) (bytes : List ℕ)
      → (before : List (List ℕ)) × (map decode (split_feeds bytes)
          ≡ before ++ (read_bytes decode max_bytes bytes).1)
        × (suc (length before) ≡ (read_bytes decode max_bytes bytes).0)
  unfolding read_bytes
  read_bytes-numbered max_bytes bytes = numbered (length bytes - max_bytes) bytes
