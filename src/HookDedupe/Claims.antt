-- ===== src/HookDedupe/Claims.antt =====
-- Which claims proceed, yield or raise.
use borromean_rings.Base.{
  ℕ, ◌+◌, ◌≤◌, ◌<◌, String, ◌≡◌, refl, sym, ◌∙◌, ◌↔◌, true, false, Option, none, some, arith,
  eq_refl, Bool-cases, inl, inr, ap, subst, if◌then◌else◌,
}
use borromean_rings.HookDedupe.{
  Markers, Claim, proceed, yield, os_error, put, marker_name, is_stale, open_marker, claim, release,
}

module _ (sha256 : String → String) (event key : String) (window : ℕ) where
  -- A marker that shadows claims at a time: made at most `window` ticks before, and not later.
  abbrev pub IsFresh : ℕ → Option ℕ → Type 0
  IsFresh now none = ⊥
  IsFresh now (some t) = (t ≤ now) × (now < t + window)

  opened-yield :
      (m : Markers) (name : String) (now : ℕ) (o : Option ℕ)
      → ((open_marker m name now window o).1 ≡ yield) ↔ ((m.statable ≡ true) × IsFresh now o)
  opened-yield m name now none = ground arith
  opened-yield m name now (some t) = ground arith

  claim-open :
      (now : ℕ) (m : Markers)
      → m.makeable ≡ true
      → claim sha256 event key window now m
        ≡ open_marker m
            (marker_name sha256 event key)
            now
            window
            (m.times (marker_name sha256 event key))
  unfolding claim
  claim-open now m h = rw h

  claim-shut :
      (now : ℕ) (m : Markers)
      → m.makeable ≡ false
      → claim sha256 event key window now m ≡ (m, proceed)
  unfolding claim
  claim-shut now m h = rw h

  -- A claim yields exactly where the directory can be made and holds a marker for the event and
  -- the key whose time can be read, is not in the future, and lies less than the window back.
  pub claim-yield :
      (now : ℕ) (m : Markers)
      → ((claim sha256 event key window now m).1 ≡ yield) ↔ (
          (m.makeable ≡ true)
          × (m.statable ≡ true)
          × IsFresh now (m.times (marker_name sha256 event key)))
  claim-yield now m =
      let name = marker_name sha256 event key in
      elim (Bool-cases m.makeable) [
        | inl e ↦
            let (to, from) = opened-yield m name now (m.times name) in
            let q = ap (λ (r : Markers × Claim). r.1) (claim-open now m e) in
            (λ h. let (s, f) = to (sym q ∙ h) in (e, s, f), λ (_, s, f). q ∙ from (s, f))
        | inr e ↦
            let q = ap (λ (r : Markers × Claim). r.1) (claim-shut now m e) in
            (λ h. cc, λ (d, s, f). cc)
      ]

  opened-put :
      (m : Markers) (name : String) (now : ℕ) (o : Option ℕ)
      → m.creatable ≡ true
      → m.statable ≡ true
      → m.touchable ≡ true
      → (open_marker m name now window o).1 ≡ proceed
      → (open_marker m name now window o).0 ≡ put m name (some now)
  opened-put m name now none b c d h = rw b refl
  opened-put m name now (some t) b c d h = elim (Bool-cases (is_stale now window t)) [
    | inl e ↦ rw (c, e, d) refl
    | inr e ↦ ground (arith, b, c, d, e, h)
  ]

  put_self : (m : Markers) (name : String) (t : Option ℕ) → (put m name t).times name ≡ t
  put_self m name t = rw eq_refl

  proceeded :
      (now : ℕ) (m : Markers)
      → m.makeable ≡ true
      → m.creatable ≡ true
      → m.statable ≡ true
      → m.touchable ≡ true
      → (claim sha256 event key window now m).1 ≡ proceed
      → (claim sha256 event key window now m).0 ≡ put m (marker_name sha256 event key) (some now)
  proceeded now m a b c d h =
      let name = marker_name sha256 event key in
      let q = claim-open now m a in
      ap (λ (r : Markers × Claim). r.0) q
      ∙ opened-put m name now (m.times name) b c d (sym (ap (λ (r : Markers × Claim). r.1) q) ∙ h)

  shadowed :
      (now later : ℕ) (m : Markers)
      → m.makeable ≡ true
      → m.statable ≡ true
      → now ≤ later
      → (later < now + window) ↔ (
          (claim sha256 event key window later (put m (marker_name sha256 event key) (some now))).1
          ≡ yield)
  shadowed now later m a c l =
      let name = marker_name sha256 event key in
      let m₁ = put m name (some now) in
      let (to, from) = claim-yield later m₁ in
      let q : m₁.times name ≡ some now = put_self m name (some now) in
      (
        λ h. from (a, c, subst (IsFresh later) (sym q) (l, h)),
        λ h. let (_, _, f) = to h in (subst (IsFresh later) q f).1,
      )

  release-put :
      (m : Markers)
      → m.removable ≡ true
      → release sha256 event key m ≡ put m (marker_name sha256 event key) none
  unfolding release
  release-put m e = ap (λ b. if b then put m (marker_name sha256 event key) none else m) e

  absent-proceed :
      (later : ℕ) (m : Markers)
      → m.makeable ≡ true
      → m.creatable ≡ true
      → m.times (marker_name sha256 event key) ≡ none
      → (claim sha256 event key window later m).1 ≡ proceed
  absent-proceed later m a b e = rw (claim-open later m a) (rw (e, b) refl)

  released :
      (later : ℕ) (m : Markers)
      → m.makeable ≡ true
      → m.creatable ≡ true
      → m.removable ≡ true
      → (claim sha256 event key window later (release sha256 event key m)).1 ≡ proceed
  released later m a b e =
      let name = marker_name sha256 event key in
      subst (λ x. (claim sha256 event key window later x).1 ≡ proceed) (sym (release-put m e))
        (absent-proceed later (put m name none) a b (put_self m name none))

  -- After a claim that proceeds, on a directory in which everything succeeds, a later claim on the
  -- event and the key yields exactly while the window is not over; after a release it proceeds.
  pub claim-claim :
      (now later : ℕ) (m : Markers)
      → m.makeable ≡ true
      → m.creatable ≡ true
      → m.statable ≡ true
      → m.touchable ≡ true
      → m.removable ≡ true
      → (claim sha256 event key window now m).1 ≡ proceed
      → now ≤ later
      → ((later < now + window) ↔ (
          (claim sha256 event key window later (claim sha256 event key window now m).0).1 ≡ yield))
        × ((claim sha256 event key window later
              (release sha256 event key (claim sha256 event key window now m).0)).1
            ≡ proceed)
  claim-claim now later m a b c d e h l = rw (proceeded now m a b c d h) (
    shadowed now later m a c l,
    released later (put m (marker_name sha256 event key) (some now)) a b e,
  )

  opened-raises :
      (m : Markers) (name : String) (now : ℕ)
      → m.makeable ≡ true
      → (o : Option ℕ)
      → ((open_marker m name now window o).1 ≡ os_error) ↔ (
          (t : ℕ) × (o ≡ some t)
          × (m.makeable ≡ true)
          × (m.statable ≡ true)
          × (m.touchable ≡ false)
          × (is_stale now window t ≡ true))
  opened-raises m name now a none = (λ h. ground arith, λ (t, q, _, _, _, _). cc)
  opened-raises m name now a (some s) = (
    λ h. (s, refl, a, ground (arith, h), ground (arith, h), ground (arith, h)),
    λ (t, q, _, c, d, f). ground (arith, q, c, d, f),
  )

  -- A claim raises exactly where it finds a marker that is stale, or dated in the future, whose
  -- time can be read and cannot be set.
  pub claim-raises :
      (now : ℕ) (m : Markers)
      → ((claim sha256 event key window now m).1 ≡ os_error) ↔ (
          (t : ℕ) × (m.times (marker_name sha256 event key) ≡ some t)
          × (m.makeable ≡ true)
          × (m.statable ≡ true)
          × (m.touchable ≡ false)
          × (is_stale now window t ≡ true))
  claim-raises now m = elim (Bool-cases m.makeable) [
    | inl e ↦ rw (claim-open now m e) (
        opened-raises m (marker_name sha256 event key) now e
          (m.times (marker_name sha256 event key)))
    | inr e ↦ rw (claim-shut now m e) (λ h. cc, λ (t, _, d, _, _, _). cc)
  ]
