-- ===== src/Trunk/Push/Spellings.antt =====
-- That a push to a protected branch is refused however the branch is spelled.
use Prim.Native.Char.{Char}
use borromean_rings.Base.{
  String, ◌≡◌, ◌≢◌, refl, sym, ◌∙◌, ap, subst, true, false, none, List, [], ◌∷◌, All, arith,
  Bool-cases, inl, inr, elem, eq_iff, ◌==◌,
}
use mathlib.Core.Bool.{false≢true}
use borromean_rings.Words.{cut_front, starts_with, remove_prefix, has_char, strip_front, glue}
use borromean_rings.Words.Glued.{
  starts_with-longer, starts_with-first, strip_front_lem, has_char-glue, after_char-glue,
  starts_with-absent,
}
use borromean_rings.Trunk.{Shell}
use borromean_rings.Trunk.Arguments.{no_flags, argument_of, push_words}
use borromean_rings.Trunk.Push.{
  branch, destination_of, written_side, destination, written_branches, spec_from, push_spec,
  targets, push_violation,
}
use borromean_rings.Trunk.Push.Exact.{Misses, push_violation-none}

-- A branch name, as git allows it at the right of a refspec.
pub record IsName (b : String) : Type 0 where
  pub nonempty : b ≢ ""
  pub not_head : b ≢ "HEAD"
  pub not_ref : starts_with b "refs/" ≡ false
  pub no_dash : starts_with b "-" ≡ false
  pub no_plus : starts_with b "+" ≡ false
  pub no_colon : has_char 58 b ≡ false

-- What stands at the left of a refspec.
pub record IsSource (s : String) : Type 0 where
  pub nonempty : s ≢ ""
  pub no_dash : starts_with s "-" ≡ false
  pub no_plus : starts_with s "+" ≡ false
  pub no_colon : has_char 58 s ≡ false

-- The ways to write a branch as the destination of a refspec.
pub data Spelling : Type 0 where
  as_name as_ref : Spelling
  from_name from_ref : String → Spelling
  forced : Spelling → Spelling

abbrev pub ref_of : String → String
ref_of b = glue "refs/heads/" b

abbrev pub colon : String → String
colon b = String.◌∷◌ ":" b

unfoldable pub spell : String → Spelling → String
spell b as_name = b
spell b as_ref = ref_of b
spell b (from_name s) = glue s (colon b)
spell b (from_ref s) = glue s (colon (ref_of b))
spell b (forced s) = String.◌∷◌ "+" (spell b s)

abbrev pub IsSpelled : Spelling → Type 0
IsSpelled as_name = Unit
IsSpelled as_ref = Unit
IsSpelled (from_name s) = IsSource s
IsSpelled (from_ref s) = IsSource s
IsSpelled (forced s) = IsSpelled s

nonempty_test : (b : String) → b ≢ "" → (b == "") ≡ false
nonempty_test b h = elim (Bool-cases (b == "")) [
  | inl e ↦ absurd (h ((eq_iff b "").0 e))
  | inr e ↦ e
]

not_head_test : (b : String) → b ≢ "HEAD" → (b == "HEAD") ≡ false
not_head_test b h = elim (Bool-cases (b == "HEAD")) [
  | inl e ↦ absurd (h ((eq_iff b "HEAD").0 e))
  | inr e ↦ e
]

module _ (b : String) (n : IsName b) where
  of_name : destination_of b ≡ branch b
  unfolding destination_of
  of_name =
      rw
        (
          starts_with-longer b "refs/" "heads/" n.not_ref,
          n.not_ref,
          nonempty_test b n.nonempty,
          not_head_test b n.not_head,
        )
        refl

  of_ref : destination_of (ref_of b) ≡ branch b
  unfolding destination_of starts_with remove_prefix cut_front
  of_ref = rw (nonempty_test b n.nonempty) refl

  written_plain : (w : String) → has_char 58 w ≡ false → written_side w ≡ w
  written_plain w h = rw h refl

  written_from : (s w : String) → IsSource s → written_side (glue s (colon w)) ≡ w
  unfolding has_char
  written_from s w h =
      rw (has_char-glue 58 s (colon w), h.no_colon) (after_char-glue ":" s w h.no_colon)

  unplussed : (w : String) → starts_with w "+" ≡ false → strip_front 43 w ≡ w
  unplussed w h = strip_front_lem w "+" h

  destination-from :
      (s w : String)
      → IsSource s
      → destination_of w ≡ branch b
      → destination (glue s (colon w)) ≡ branch b
  unfolding destination
  destination-from s w h e =
      rw
        (
          unplussed (glue s (colon w)) (starts_with-first s (colon w) h.nonempty "+" ∙ h.no_plus),
          written_from s w h,
        )
        e

  ref_plain : has_char 58 (ref_of b) ≡ false
  unfolding has_char
  ref_plain = n.no_colon

  -- Each spelling of a branch writes that branch.
  pub destination-spell : (s : Spelling) → IsSpelled s → destination (spell b s) ≡ branch b
  unfolding destination spell strip_front has_char
  destination-spell as_name h = rw (unplussed b n.no_plus, n.no_colon) of_name
  destination-spell as_ref h = rw n.no_colon of_ref
  destination-spell (from_name s) h = destination-from s b h of_name
  destination-spell (from_ref s) h = destination-from s (ref_of b) h of_ref
  destination-spell (forced s) h = destination-spell s h

  -- No spelling looks like an option, or asks for a deletion.
  spelled :
      (c : Char) (s : Spelling)
      → IsSpelled s
      → starts_with b (String.◌∷◌ c "") ≡ false
      → starts_with "r" (String.◌∷◌ c "") ≡ false
      → starts_with "+" (String.◌∷◌ c "") ≡ false
      → ((x : String) → IsSource x → starts_with x (String.◌∷◌ c "") ≡ false)
      → starts_with (spell b s) (String.◌∷◌ c "") ≡ false
  unfolding spell
  spelled c as_name h a d e f = a
  spelled c as_ref h a d e f = starts_with-first "r" (glue "efs/heads/" b) (λ q. cc) c ∙ d
  spelled c (from_name s) h a d e f = starts_with-first s (colon b) h.nonempty c ∙ f s h
  spelled c (from_ref s) h a d e f = starts_with-first s (colon (ref_of b)) h.nonempty c ∙ f s h
  spelled c (forced s) h a d e f = starts_with-first "+" (spell b s) (λ q. cc) c ∙ e

  no_option : (s : Spelling) → IsSpelled s → starts_with (spell b s) "-" ≡ false
  unfolding starts_with cut_front
  no_option s h = spelled "-" s h n.no_dash refl refl (λ x i. i.no_dash)

  no_deletion : (s : Spelling) → IsSpelled s → starts_with (spell b s) ":" ≡ false
  unfolding starts_with cut_front
  no_deletion s h =
      spelled ":" s h (starts_with-absent b ":" n.no_colon) refl refl
        (λ x i. starts_with-absent x ":" i.no_colon)

-- An argument without a dash is a positional word.
not_listed :
    (a l : String) → starts_with a "-" ≡ false → starts_with l "-" ≡ true → (a == l) ≡ false
not_listed a l h k = elim (Bool-cases (a == l)) [
  | inl e ↦ cc (ap (λ x. starts_with x "-") ((eq_iff a l).0 e), h, k)
  | inr e ↦ e
]

dashes :
    (a : String)
    → starts_with a "-" ≡ false
    → argument_of a ≡ record { flags = no_flags; words = a ∷ []; takes_value = false }
unfolding argument_of starts_with cut_front
dashes a h =
    rw
      (
        not_listed a "--repo" h refl,
        not_listed a "--receive-pack" h refl,
        not_listed a "--exec" h refl,
        not_listed a "-o" h refl,
        not_listed a "--push-option" h refl,
        starts_with-longer a "-" "-" h,
        h,
      )
      refl

two_words :
    (remote w : String)
    → starts_with remote "-" ≡ false
    → starts_with w "-" ≡ false
    → push_words false (remote ∷ w ∷ []) ≡ (no_flags, remote ∷ w ∷ [])
unfolding push_words
two_words remote w h k = rw (dashes remote h, push_words, dashes w k) refl

one_branch :
    (b w : String) → destination w ≡ branch b → (written_branches false (w ∷ [])).branches ≡ b ∷ []
unfolding written_branches
one_branch b w e = rw e refl

spec_two :
    (remote b w : String)
    → starts_with w ":" ≡ false
    → destination w ≡ branch b
    → (spec_from (no_flags, remote ∷ w ∷ [])).destinations ≡ b ∷ []
spec_two remote b w c e = rw c (one_branch b w e)

spec_branches :
    (remote b w : String)
    → starts_with remote "-" ≡ false
    → starts_with w "-" ≡ false
    → starts_with w ":" ≡ false
    → destination w ≡ branch b
    → (push_spec (remote ∷ w ∷ [])).destinations ≡ b ∷ []
unfolding push_spec
spec_branches remote b w h k c e =
    ap (λ r. (spec_from r).destinations) (two_words remote w h k) ∙ spec_two remote b w c e

missed :
    (shell : Shell) (b : String) (protected : List String)
    → Misses shell protected b
    → elem b protected ≡ true
    → shell.fnmatch b b ≡ false
missed shell b [] m h = cc
missed shell b (p ∷ protected) (a, m) h = elim (Bool-cases (b == p)) [
  | inl e ↦ subst (λ x. shell.fnmatch x b ≡ false) (sym ((eq_iff b p).0 e)) a
  | inr e ↦ missed shell b protected m (ground (arith, e, h))
]

first_target :
    (shell : Shell) (b head : String) (protected : List String) (args : List String)
    → (push_spec args).destinations ≡ b ∷ []
    → All (Misses shell protected) (targets (push_spec args) head)
    → Misses shell protected b
first_target shell b head protected args e = elim (Bool-cases (push_spec args).implicit) [
  | inl i ↦ rw (i, e) (λ (m, rest). m)
  | inr i ↦ rw (i, e) (λ (m, rest). m)
]

-- A push to a protected branch is refused from any branch, however its refspec spells the
-- destination: by name or in full, after a source, and forced with a plus. The remote is no option,
-- the branch and the source are names as git allows them at a refspec, and the branch matches itself
-- as a pattern.
pub push_violation-spell :
    (shell : Shell) (remote b head : String) (protected : List String) (s : Spelling)
    → IsName b
    → IsSpelled s
    → starts_with remote "-" ≡ false
    → shell.fnmatch b b ≡ true
    → elem b protected ≡ true
    → push_violation shell (remote ∷ spell b s ∷ []) head protected ≢ none
push_violation-spell shell remote b head protected s n i h f e q =
    let args = remote ∷ spell b s ∷ [] in
    let (x, m) = (push_violation-none shell args head protected).0 q in
    let d =
      spec_branches remote b (spell b s) h (no_option b n s i) (no_deletion b n s i)
        (destination-spell b n s i) in
    let out = missed shell b protected (first_target shell b head protected args d m) e in
    false≢true (sym out ∙ f)
