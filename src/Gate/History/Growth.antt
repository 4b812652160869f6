-- ===== src/Gate/History/Growth.antt =====
-- What a reader sees of a history that the gate appends to.
use mathlib.Core.List.{append-nil, append_assoc}
use borromean_rings.Base.{
  ℕ, ◌≡◌, refl, ap, sym, ◌∙◌, inl, inr, false, Option, none, some, List, [], ◌∷◌, ◌++◌, All,
  Option-cases,
}
use borromean_rings.Base.Text.{is_break, is_blank, splitlines}
use borromean_rings.Base.Text.Lines.{IsClosed, splitlines-append}
use borromean_rings.Gate.Evidence.{present}
use borromean_rings.Gate.Verdict.{Verdict, to_dict}
use borromean_rings.Gate.Verdict.Persisted.{parse-to_dict}
use borromean_rings.Gate.History.{
  Codec, read_line, read_history, append_history, append_all, existing,
}

-- What `json` documents of the objects that a verdict becomes: the dump is one line, it is not
-- blank, and loading it gives the object back.
pub record IsFaithful (codec : Codec) (v : Verdict) : Type 0 where
  pub one_line : All (λ c. is_break c ≡ false) (codec.dumps (to_dict v))
  pub not_blank : is_blank (codec.dumps (to_dict v)) ≡ false
  pub loads_back : codec.loads (codec.dumps (to_dict v)) ≡ some (to_dict v)

present-append {ℓ κ} :
    {A : Type ℓ} {B : Type κ} (f : A → Option B) (xs ys : List A)
    → present f (xs ++ ys) ≡ present f xs ++ present f ys
present-append f [] ys = refl
present-append f (x ∷ xs) ys = elim (Option-cases (f x)) [
  | inl e ↦ rw (e, present) (present-append f xs ys)
  | inr (y, e) ↦ rw (e, present) (ap (◌∷◌ y) (present-append f xs ys))
]

read_line-dumps :
    (codec : Codec) (v : Verdict)
    → IsFaithful codec v
    → read_line codec (codec.dumps (to_dict v)) ≡ some v
unfolding read_line
read_line-dumps codec v h = rw (h.not_blank, h.loads_back) (parse-to_dict codec.repr v)

present-dumps :
    (codec : Codec) (v : Verdict)
    → IsFaithful codec v
    → present (read_line codec) (codec.dumps (to_dict v) ∷ []) ≡ v ∷ []
present-dumps codec v h = rw (read_line-dumps codec v h, present)

abbrev pub IsClosedFile : Option (List ℕ) → Type 0
IsClosedFile file = IsClosed (existing file)

read_history-existing :
    (codec : Codec) (file : Option (List ℕ))
    → read_history codec file ≡ present (read_line codec) (splitlines (existing file))
unfolding read_history splitlines
read_history-existing codec none = refl
read_history-existing codec (some raw) = refl

pub read_history-append_history :
    (codec : Codec) (file : Option (List ℕ)) (v : Verdict)
    → IsClosedFile file
    → IsFaithful codec v
    → read_history codec (append_history codec file v) ≡ read_history codec file ++ v ∷ []
unfolding append_history
read_history-append_history codec file v closed h =
    read_history-existing codec (append_history codec file v)
    ∙ ap (present (read_line codec)) (splitlines-append (existing file) _ closed h.one_line)
    ∙ present-append (read_line codec) (splitlines (existing file)) _
    ∙ cc (read_history-existing codec file, present-dumps codec v h)

append_history-IsClosed :
    (codec : Codec) (file : Option (List ℕ)) (v : Verdict)
    → IsClosedFile (append_history codec file v)
unfolding append_history
append_history-IsClosed codec file v =
    inr (existing file ++ codec.dumps (to_dict v), sym (append_assoc (existing file) _ _))

-- Reading a history after the gate appended verdicts to it gives what was read before, then those
-- verdicts in order. The file may be missing or hold damaged lines, but ends with a line feed.
pub read_history-append_all :
    (codec : Codec) (file : Option (List ℕ)) (vs : List Verdict)
    → IsClosedFile file
    → All (IsFaithful codec) vs
    → read_history codec (append_all codec file vs) ≡ read_history codec file ++ vs
unfolding append_all
read_history-append_all codec file [] closed h = sym (append-nil (read_history codec file))
read_history-append_all codec file (v ∷ vs) closed h =
    read_history-append_all codec (append_history codec file v) vs
      (append_history-IsClosed codec file v) h.1
    ∙ rw (read_history-append_history codec file v closed h.0) (append_assoc _ (v ∷ []) vs)
