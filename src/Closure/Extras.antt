-- ===== src/Closure/Extras.antt =====
-- When the walk of closure.py loses the extras that a project asks for.
use borromean_rings.Base.{
  ℕ, zero, suc, ◌≡◌, refl, false, List, [], ◌∷◌, ◌++◌, Bool-cases, inl, inr, ◌∙◌, sym, ap, arith,
}
use borromean_rings.Closure.Requirement.{Text, text_eq, contains, normalise}
use borromean_rings.Closure.Walk.{Wanted, Index, children, push_all, walk, installed_closure}
use borromean_rings.Closure.Reach.{Has, text_eq_refl, walk-again, walk-first}

push_all-append :
    (more pending last : List Wanted)
    → push_all more (pending ++ last) ≡ push_all more pending ++ last
push_all-append [] pending last = refl
push_all-append (w ∷ more) pending last = push_all-append more (w ∷ pending) last

-- The extras of an entry at the bottom of the stack do not matter where its name was seen.
walk-bottom :
    (ix : Index) (name : Text) (extras other : List Text) (fuel : ℕ) (pending : List Wanted)
    (seen : List Text)
    → Has seen name
    → walk ix fuel (pending ++ (name, extras) ∷ []) seen
      ≡ walk ix fuel (pending ++ (name, other) ∷ []) seen
unfolding walk
walk-bottom ix name extras other zero pending seen h = refl
walk-bottom ix name extras other (suc fuel) [] seen h =
    walk-again ix fuel name extras [] seen h ∙ sym (walk-again ix fuel name other [] seen h)
walk-bottom ix name extras other (suc fuel) ((n, e) ∷ pending) seen h =
    elim (Bool-cases (contains n seen)) [
      | inl i ↦
          walk-again ix fuel n e (pending ++ (name, extras) ∷ []) seen i
          ∙ walk-bottom ix name extras other fuel pending seen h
          ∙ sym (walk-again ix fuel n e (pending ++ (name, other) ∷ []) seen i)
      | inr i ↦
          let more = children ix n e in
          walk-first ix fuel n e (pending ++ (name, extras) ∷ []) seen i
          ∙ ap (λ p. walk ix fuel p (n ∷ seen)) (push_all-append more pending ((name, extras) ∷ []))
          ∙ walk-bottom ix name extras other fuel (push_all more pending) (n ∷ seen)
              (ground (arith, h))
          ∙ sym (
              ap (λ p. walk ix fuel p (n ∷ seen))
                (push_all-append more pending ((name, other) ∷ [])))
          ∙ sym (walk-first ix fuel n e (pending ++ (name, other) ∷ []) seen i)
    ]

bottom_again :
    (ix : Index) (a b : Text) (extras other asked : List Text) (fuel : ℕ)
    → text_eq a b ≡ false
    → walk ix fuel ((a, asked) ∷ (a, extras) ∷ []) (b ∷ [])
      ≡ walk ix fuel ((a, asked) ∷ (a, other) ∷ []) (b ∷ [])
unfolding walk
bottom_again ix a b extras other asked zero d = refl
bottom_again ix a b extras other asked (suc fuel) d =
    let i : contains a (b ∷ []) ≡ false = rw d in
    let more = children ix a asked in
    walk-first ix fuel a asked ((a, extras) ∷ []) (b ∷ []) i
    ∙ ap (λ p. walk ix fuel p (a ∷ b ∷ [])) (push_all-append more [] ((a, extras) ∷ []))
    ∙ walk-bottom ix a extras other fuel (push_all more []) (a ∷ b ∷ []) (rw text_eq_refl)
    ∙ sym (ap (λ p. walk ix fuel p (a ∷ b ∷ [])) (push_all-append more [] ((a, other) ∷ [])))
    ∙ sym (walk-first ix fuel a asked ((a, other) ∷ []) (b ∷ []) i)

-- Where a project declares two distributions, and the second requires exactly the first, with extras
-- of its own choice, the closure is the same whatever extras the project asks of the first.
pub installed_closure-loses_extras :
    (ix : Index) (a b : Text) (extras other asked wanted : List Text) (fuel : ℕ)
    → text_eq (normalise ix.unicode a) (normalise ix.unicode b) ≡ false
    → children ix (normalise ix.unicode b) wanted ≡ (normalise ix.unicode a, asked) ∷ []
    → installed_closure ix fuel ((a, extras) ∷ (b, wanted) ∷ [])
      ≡ installed_closure ix fuel ((a, other) ∷ (b, wanted) ∷ [])
unfolding installed_closure walk
installed_closure-loses_extras ix a b extras other asked wanted zero d e = refl
installed_closure-loses_extras ix a b extras other asked wanted (suc fuel) d e =
    rw e
      (bottom_again ix (normalise ix.unicode a) (normalise ix.unicode b) extras other asked fuel d)
