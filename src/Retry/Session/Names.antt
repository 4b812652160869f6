-- ===== src/Retry/Session/Names.antt =====
-- The names of two sessions' counter files.
use Prim.Native.Char.{code}
use text.Mathlib.TextLemmas.{tail-eq_of_cons-eq}
use borromean_rings.Base.{
  String, ◌≡◌, refl, ◌≢◌, Bool, true, false, ◌||◌, arith, Bool-cases, inl, inr, nat_eq, ap, ◌∙◌,
  sym,
}
use borromean_rings.StateHome.{take_chars, digest_chars}
use borromean_rings.Retry.Session.{is_verbatim, session_filename, hashed, all_words}

abbrev pub digest : (String → String) → String → String
digest sha256 s = take_chars digest_chars (sha256 s)

not_verbatim : (d : String) → is_verbatim (hashed d) ≡ false
unfolding is_verbatim
not_verbatim d = refl

name_kept :
    (sha256 : String → String) (s : String) → is_verbatim s ≡ true → session_filename sha256 s ≡ s
unfolding session_filename
name_kept sha256 s h = rw h

name_hashed :
    (sha256 : String → String) (s : String)
    → is_verbatim s ≡ false
    → session_filename sha256 s ≡ hashed (digest sha256 s)
unfolding session_filename
name_hashed sha256 s h = rw h

apart :
    (sha256 : String → String) (a b : String)
    → is_verbatim a ≡ true
    → is_verbatim b ≡ false
    → session_filename sha256 a ≢ session_filename sha256 b
apart sha256 a b ha hb e =
    let q : a ≡ hashed (digest sha256 b) =
      sym (name_kept sha256 a ha) ∙ e ∙ name_hashed sha256 b hb in
    cc (ap is_verbatim q, not_verbatim (digest sha256 b), ha)

-- Two sessions share a counter file only if they are one session, for two ids whose digests
-- collide only if the ids are equal: an id that is kept is no hashed name.
pub session_filename_injective :
    (sha256 : String → String) (a b : String)
    → (digest sha256 a ≡ digest sha256 b → a ≡ b)
    → session_filename sha256 a ≡ session_filename sha256 b
    → a ≡ b
session_filename_injective sha256 a b no_collision e = elim (Bool-cases (is_verbatim a)) [
  | inl ha ↦ elim (Bool-cases (is_verbatim b)) [
    | inl hb ↦ sym (name_kept sha256 a ha) ∙ e ∙ name_kept sha256 b hb
    | inr hb ↦ absurd (apart sha256 a b ha hb e)
  ]
  | inr ha ↦ elim (Bool-cases (is_verbatim b)) [
    | inl hb ↦ absurd (apart sha256 b a hb ha (sym e))
    | inr hb ↦ no_collision (
        tail-eq_of_cons-eq
          (tail-eq_of_cons-eq (sym (name_hashed sha256 a ha) ∙ e ∙ name_hashed sha256 b hb)))
  ]
]

abbrev pub has_slash : String → Bool
has_slash String.[] = false
has_slash (String.◌∷◌ c s) = nat_eq (code c) 47 || has_slash s

words_no_slash : (s : String) → all_words s ≡ true → has_slash s ≡ false
words_no_slash String.[] h = refl
words_no_slash (String.◌∷◌ c s) h = ground (arith, words_no_slash s)

-- No file name of a session holds a slash, where a digest is of letters and digits.
pub session_filename-no_slash :
    (sha256 : String → String) (s : String)
    → all_words (digest sha256 s) ≡ true
    → has_slash (session_filename sha256 s) ≡ false
session_filename-no_slash sha256 s h = elim (Bool-cases (is_verbatim s)) [
  | inl v ↦ rw (name_kept sha256 s v) (words_no_slash s (unfold is_verbatim in ground arith))
  | inr v ↦ rw (name_hashed sha256 s v) (words_no_slash (digest sha256 s) h)
]
