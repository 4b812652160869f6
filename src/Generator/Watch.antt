-- ===== src/Generator/Watch.antt =====
-- That the watch on the evidence area reports every difference and nothing else.
use borromean_rings.Base.{
  String, ◌≡◌, refl, sym, ◌∙◌, ◌↔◌, Bool, true, false, ◌||◌, Option, none, some, List, [], ◌∷◌,
  ◌++◌, ◌==◌, elem, any-append, arith, Bool-cases, inl, inr, eq_iff, eq_refl, Option-cases, subst,
}
use borromean_rings.Base.Names.{sorted_names, elem-sorted_names}
use borromean_rings.Generator.{
  Snapshot, Write, lookup, write_of, writes_among, names_in, evidence_writes,
}

abbrev is_some : Option String → Bool
is_some none = false
is_some (some s) = true

elem-names_in : (x : String) (s : Snapshot) → elem x (names_in s) ≡ is_some (lookup x s)
unfolding lookup
elem-names_in x [] = refl
elem-names_in x ((n, p) ∷ s) = ground (arith, elem-names_in x s)

elem-names :
    (x : String) (before after : Snapshot)
    → elem x (sorted_names (names_in before ++ names_in after))
      ≡ (is_some (lookup x before) || is_some (lookup x after))
elem-names x before after =
    rw
      (
        elem-sorted_names x (names_in before ++ names_in after),
        any-append (λ y. x == y) (names_in before) (names_in after),
        elem-names_in x before,
        elem-names_in x after,
      )
      refl

silent_same : (n : String) (b a : Option String) → write_of n b a ≡ none → b ≡ a
silent_same n none a h = cc
silent_same n (some b) none h = cc
silent_same n (some b) (some a) h = ground (arith, eq_iff b a)

same_silent :
    (n : String) (b a : Option String)
    → b ≡ a
    → (is_some b || is_some a) ≡ true
    → write_of n b a ≡ none
same_silent n none none e h = cc
same_silent n none (some a) e h = cc
same_silent n (some b) none e h = cc
same_silent n (some b) (some a) e h = ground (arith, eq_iff b a)

the_first :
    (before after : Snapshot) (k : String) (ns : List String) (w : Write)
    → write_of k (lookup k before) (lookup k after) ≡ some w
    → writes_among before after (k ∷ ns) ≡ w ∷ writes_among before after ns
unfolding writes_among
the_first before after k ns w e = rw e

writes_silent :
    (before after : Snapshot) (ns : List String)
    → writes_among before after ns ≡ []
    → (n : String) → elem n ns ≡ true
    → lookup n before ≡ lookup n after
unfolding writes_among
writes_silent before after [] h n m = cc
writes_silent before after (k ∷ ns) h n m =
    elim (Option-cases (write_of k (lookup k before) (lookup k after))) [
      | inl e ↦ elim (Bool-cases (n == k)) [
        | inl q ↦
            subst (λ x. lookup x before ≡ lookup x after) (sym ((eq_iff n k).0 q))
              (silent_same k (lookup k before) (lookup k after) e)
        | inr q ↦ writes_silent before after ns (sym (rw e) ∙ h) n (ground (arith, q, m))
      ]
      | inr (w, e) ↦ cc (the_first before after k ns w e, h)
    ]

silent_writes :
    (before after : Snapshot)
    → ((n : String) → lookup n before ≡ lookup n after)
    → (ns : List String)
    → ((n : String)
        → elem n ns ≡ true
        → (is_some (lookup n before) || is_some (lookup n after)) ≡ true)
    → writes_among before after ns ≡ []
unfolding writes_among
silent_writes before after f [] g = refl
silent_writes before after f (n ∷ ns) g =
    rw (same_silent n (lookup n before) (lookup n after) (f n) (g n (ground (arith, eq_refl n))))
      (silent_writes before after f ns (λ m e. g m (ground (arith, e))))

absent_same : (b a : Option String) → (is_some b || is_some a) ≡ false → b ≡ a
absent_same none none h = refl
absent_same none (some a) h = cc
absent_same (some b) a h = cc

-- No write is reported exactly when the two readings give every path the same fingerprint, or give
-- it none alike.
pub evidence_writes-empty :
    (before after : Snapshot)
    → (evidence_writes before after ≡ []) ↔ ((n : String) → lookup n before ≡ lookup n after)
unfolding evidence_writes
evidence_writes-empty before after =
    let names = sorted_names (names_in before ++ names_in after) in
    (
      λ h n. elim (Bool-cases (elem n names)) [
        | inl e ↦ writes_silent before after names h n e
        | inr e ↦
            absent_same (lookup n before) (lookup n after) (sym (elem-names n before after) ∙ e)
      ],
      λ f. silent_writes before after f names (λ n e. sym (elem-names n before after) ∙ e),
    )
