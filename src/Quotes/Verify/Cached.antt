-- ===== src/Quotes/Verify/Cached.antt =====
-- That the cache of the sources is not seen in the report, and that no source is asked for twice.
use borromean_rings.Quotes.Verify.Sound.{
  answer_with, Sound, empty-Sound, keep_text-Sound, keep_refusal-Sound, fresh_log,
}
use borromean_rings.Base.{
  String, ◌≡◌, refl, ◌∙◌, ap, ◌⊎◌, inl, inr, Bool, true, false, ◌||◌, Option, none, some, List, [],
  ◌∷◌, elem, eq_refl, arith, Bool-cases, if◌then◌else◌,
}
use borromean_rings.Quotes.{Reader, Quotation}
use borromean_rings.Quotes.Extract.{extract}
use borromean_rings.Quotes.Verify.{
  Answer, contents, no_file, refused, raises, Status, missing, orphan, QuoteResult, escapes_root,
  judge, Cache, is_cached, keep_text, keep_refusal, store, load, status_in, result_at, add_result,
  loaded_status, verify_one, verify_from, verify,
}
use borromean_rings.Quotes.Verify.Entries.{has_key, lookup-present, NoDup}

abbrev fresh_with :
    Quotation → Option Status → Option (List QuoteResult) → Option (List QuoteResult)
fresh_with q none later = none
fresh_with q (some status) later = add_result (result_at q status) later

only_left : (a b : Bool) → (a || b) ≡ true → b ≡ false → a ≡ true
only_left a b h e = ground arith

module _ (reader : Reader) (r : String → Answer) where
  -- What one quotation is found to be when its source is asked for anew; `none` is an exception.
  abbrev answered : Quotation → String → Answer → Option Status
  answered q text (contents source) = some (judge reader text q.marker (some source))
  answered q text no_file = some (judge reader text q.marker none)
  answered q text refused = some (missing "outside the project")
  answered q text raises = none

  abbrev fresh : Quotation → Option String → Option Status
  fresh q none = some orphan
  fresh q (some text) =
      if escapes_root q.marker.path
      then some (missing "path must be repo-relative (no leading '/', no '..')")
      else answered q text (r q.marker.path)

  abbrev pub fresh_all : List Quotation → Option (List QuoteResult)
  fresh_all [] = some []
  fresh_all (q ∷ qs) = fresh_with q (fresh q q.text) (fresh_all qs)

  -- The resolver that writes down the paths it is asked for, the last one first.
  abbrev pub logged : String → List String → Answer × List String
  logged path log = (r path, path ∷ log)

  answered-judge :
      (q : Quotation) (text : String) (t : Option String)
      → answered q text (answer_with t) ≡ some (judge reader text q.marker t)
  answered-judge q text none = refl
  answered-judge q text (some source) = refl

  -- A cached path has the status that a new answer would give it.
  cached-status :
      (q : Quotation) (text : String) (cache : Cache) (log : List String)
      → Sound r cache log
      → is_cached q.marker.path cache ≡ true
      → answered q text (r q.marker.path) ≡ some (status_in reader logged q text cache)
  cached-status q text cache log sound h = elim (Bool-cases (elem q.marker.path cache.outside)) [
    | inl e ↦ rw (sound.refusals q.marker.path e, e) refl
    | inr e ↦
        let (t, f) =
          lookup-present q.marker.path cache.texts (
            only_left (has_key q.marker.path cache.texts) (elem q.marker.path cache.outside) h e) in
        rw (sound.answers q.marker.path t f, e, f) (answered-judge q text t)
  ]

  -- One turn gives what a new question would, and keeps the cache sound, or both raise.
  abbrev Turned : Option Status → Option (Status × Cache) → List String → Type 0
  Turned status outcome log =
      ((outcome ≡ none) × (status ≡ none) × NoDup log)
      ⊎ ((s : Status) × (cache : Cache) × (outcome ≡ some (s, cache))
          × (status ≡ some s)
          × Sound r cache log)

  kept-Turned :
      (q : Quotation) (text : String) (cache : Cache) (log : List String)
      → Sound r cache (q.marker.path ∷ log)
      → Turned
          (answered q text (r q.marker.path))
          (some (status_in reader logged q text cache, cache))
          (q.marker.path ∷ log)
  kept-Turned q text cache log sound =
      let path = q.marker.path in
      inr (
        _,
        cache,
        refl,
        cached-status q text cache (path ∷ log) sound (sound.asked path ∙ rw (eq_refl path) refl),
        sound,
      )

  stored-Turned :
      (q : Quotation) (text : String) (cache : Cache) (log : List String) (a : Answer)
      → r q.marker.path ≡ a
      → Sound r cache log
      → is_cached q.marker.path cache ≡ false
      → Turned
          (answered q text (r q.marker.path))
          (loaded_status reader logged q text (store q.marker.path a cache, q.marker.path ∷ log)).0
          (q.marker.path ∷ log)
  stored-Turned q text cache log (contents source) e sound new =
      kept-Turned q text (keep_text q.marker.path (some source) cache) log
        (keep_text-Sound r q.marker.path (some source) cache log sound new e)
  stored-Turned q text cache log no_file e sound new =
      kept-Turned q text (keep_text q.marker.path none cache) log
        (keep_text-Sound r q.marker.path none cache log sound new e)
  stored-Turned q text cache log refused e sound new =
      kept-Turned q text (keep_refusal q.marker.path cache) log
        (keep_refusal-Sound r q.marker.path cache log sound new e)
  stored-Turned q text cache log raises e sound new =
      inl (refl, rw e refl, fresh_log r q.marker.path cache log sound new)

  same_log :
      (q : Quotation) (text : String) (o : Option Cache) (log : List String)
      → (loaded_status reader logged q text (o, log)).1 ≡ log
  same_log q text none log = refl
  same_log q text (some cache) log = refl

  loaded-Turned :
      (q : Quotation) (text : String) (cache : Cache) (log : List String)
      → Sound r cache log
      → let (outcome, log') =
          loaded_status reader logged q text (load reader logged q.marker.path cache log) in
        Turned (answered q text (r q.marker.path)) outcome log'
  unfolding load
  loaded-Turned q text cache log sound = elim (Bool-cases (is_cached q.marker.path cache)) [
    | inl e ↦ rw e (inr (_, cache, refl, cached-status q text cache log sound e, sound))
    | inr e ↦
        rw (e, same_log q text (store q.marker.path (r q.marker.path) cache) (q.marker.path ∷ log))
          (stored-Turned q text cache log (r q.marker.path) refl sound e)
  ]

  verify_one-Turned :
      (q : Quotation) (text : Option String) (cache : Cache) (log : List String)
      → Sound r cache log
      → Turned
          (fresh q text)
          (verify_one reader logged q text cache log).0
          (verify_one reader logged q text cache log).1
  unfolding verify_one
  verify_one-Turned q none cache log sound = inr (orphan, cache, refl, refl, sound)
  verify_one-Turned q (some text) cache log sound = elim (Bool-cases (escapes_root q.marker.path)) [
    | inl e ↦ rw e (inr (_, cache, refl, refl, sound))
    | inr e ↦ rw e (loaded-Turned q text cache log sound)
  ]

  verify_from-fresh :
      (qs : List Quotation) (cache : Cache) (log : List String)
      → Sound r cache log
      → let (results, log') = verify_from reader logged qs cache log in
        (results ≡ fresh_all qs) × NoDup log'
  unfolding verify_from
  verify_from-fresh [] cache log sound = (refl, sound.once)
  verify_from-fresh (q ∷ qs) cache log sound = elim (verify_one-Turned q q.text cache log sound) [
    | inl (e, f, once) ↦ rw (e, f, verify_from) (refl, once)
    | inr (status, cache', e, f, sound') ↦
        let (same, once) =
          verify_from-fresh qs cache' (verify_one reader logged q q.text cache log).1 sound' in
        rw (e, f, verify_from) (ap (add_result (result_at q status)) same, once)
  ]

  -- The report on a document is what it is when the source of each quotation is asked for anew: an
  -- exception where one of those answers is, else each quotation's own status. The resolver is asked
  -- at most once for each path, whatever it answers.
  pub verify-fresh :
      (document : String)
      → let (results, log) = verify reader logged document [] in
        (results ≡ fresh_all (extract reader document)) × NoDup log
  unfolding verify
  verify-fresh document =
      verify_from-fresh (extract reader document) (record { texts = []; outside = [] }) []
        (empty-Sound r)
