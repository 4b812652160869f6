-- ===== src/Quotes/Verify/Sound.antt =====
-- What a cache of sources holds, and that each update keeps it so.
use borromean_rings.Base.{
  String, ◌≡◌, refl, sym, ◌∙◌, inl, inr, Bool, true, false, ◌||◌, Option, none, some, List, [], ◌∷◌,
  ◌==◌, any-append, elem, eq_iff, arith, Bool-cases,
}
use borromean_rings.Quotes.Verify.{
  Answer, contents, no_file, refused, Cache, lookup, is_cached, keep_text, keep_refusal,
}
use borromean_rings.Quotes.Verify.Entries.{has_key, lookup-append_cases, NoDup}

abbrev pub answer_with : Option String → Answer
answer_with none = no_file
answer_with (some source) = contents source

swapped : (a b : String) → (a == b) ≡ (b == a)
swapped a b = ground (arith, eq_iff a b, eq_iff b a)

shuffled : (a b c : Bool) → (b || (a || false) || c) ≡ (a || (b || c))
shuffled a b c = ground arith

moved : (a b c : Bool) → (b || (a || c)) ≡ (a || (b || c))
moved a b c = ground arith

module _ (r : String → Answer) where
  -- What a cache holds is what the resolver answers, and the log has each path of it once.
  pub record Sound (cache : Cache) (log : List String) : Type 0 where
    pub refusals : (path : String) → elem path cache.outside ≡ true → r path ≡ refused
    pub answers :
        (path : String) (t : Option String)
        → lookup path cache.texts ≡ some t
        → r path ≡ answer_with t
    pub asked : (path : String) → is_cached path cache ≡ elem path log
    pub once : NoDup log

  pub empty-Sound : Sound (record { texts = []; outside = [] }) []
  unfolding lookup
  empty-Sound = record {
    refusals = λ path h. cc;
    answers = λ path t h. cc;
    asked = λ path. refl;
    once = tt;
  }

  pub fresh_log :
      (path : String) (cache : Cache) (log : List String)
      → Sound cache log
      → is_cached path cache ≡ false
      → NoDup (path ∷ log)
  fresh_log path cache log sound h = (sym (sound.asked path) ∙ h, sound.once)

  pub keep_text-Sound :
      (path : String) (t : Option String) (cache : Cache) (log : List String)
      → Sound cache log
      → is_cached path cache ≡ false
      → r path ≡ answer_with t
      → Sound (keep_text path t cache) (path ∷ log)
  keep_text-Sound path t cache log sound new answer = record {
    refusals = sound.refusals;
    answers = λ p u h. elim (lookup-append_cases p path t u cache.texts h) [
      | inl e ↦ sound.answers p u e
      | inr (e, f) ↦ rw (sym e, sym f) answer
    ];
    asked = λ p.
        rw
          (
            any-append (λ e. e.0 == p) cache.texts ((path, t) ∷ []),
            sym (sound.asked p),
            swapped p path,
          )
          (shuffled (path == p) (has_key p cache.texts) (elem p cache.outside));
    once = fresh_log path cache log sound new;
  }

  pub keep_refusal-Sound :
      (path : String) (cache : Cache) (log : List String)
      → Sound cache log
      → is_cached path cache ≡ false
      → r path ≡ refused
      → Sound (keep_refusal path cache) (path ∷ log)
  keep_refusal-Sound path cache log sound new answer = record {
    refusals = λ p h. elim (Bool-cases (p == path)) [
      | inl e ↦ rw ((eq_iff p path).0 e) answer
      | inr e ↦ sound.refusals p (rw e at h)
    ];
    answers = sound.answers;
    asked = λ p.
        rw (sym (sound.asked p)) (moved (p == path) (has_key p cache.texts) (elem p cache.outside));
    once = fresh_log path cache log sound new;
  }
