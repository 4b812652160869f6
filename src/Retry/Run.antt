-- ===== src/Retry/Run.antt =====
-- A run of failed gates of one session, with whatever the governed agent leaves inside the tree
-- before each of them.
use borromean_rings.Base.{
  ℕ, ◌+◌, ◌<◌, String, ◌≡◌, refl, ◌≢◌, ◌⊎◌, inl, inr, List, [], ◌∷◌, length, All, arith, subst,
}
use borromean_rings.StateHome.{FilePath, Except, ok, unavailable, value_error, ◌>>=◌}
use borromean_rings.Retry.Count.{read_counter}
use borromean_rings.Retry.Legacy.{Legacy}
use borromean_rings.Retry.Hook.{
  Host, World, Line, retry, escalate, count, recorded, unrecorded, located, record_failure,
  read_attempts, caught,
}
use borromean_rings.Retry.Bound.{Kept-of_retry}

abbrev pub IsRetry : Except Line → Type 0
IsRetry (ok (retry n)) = Unit
IsRetry line = ⊥

retry_number : (line : Except Line) → IsRetry line → (n : ℕ) × (line ≡ ok (retry n))
retry_number (ok (retry n)) h = (n, refl)
retry_number (ok (escalate n)) h = absurd h
retry_number (ok (count n)) h = absurd h
retry_number (ok (recorded n)) h = absurd h
retry_number (ok (unrecorded r)) h = absurd h
retry_number (unavailable r) h = absurd h
retry_number value_error h = absurd h

-- What is behind a line `count c`.
count_parts : (c : ℕ) (k : Except ℕ) → caught (do n ← k; ok (count n)) ≡ ok (count c) → k ≡ ok c
count_parts c (ok n) h = cc
count_parts c (unavailable r) h = cc
count_parts c value_error h = cc

counted_parts :
    (path : Except FilePath) (read : FilePath → Except ℕ) (c : ℕ)
    → caught (do p ← path; n ← read p; ok (count n)) ≡ ok (count c)
    → (p : FilePath) × (path ≡ ok p) × (read p ≡ ok c)
counted_parts (ok p) read c h = (p, refl, count_parts c (read p) h)
counted_parts (unavailable r) read c h = cc
counted_parts value_error read c h = cc

pub counted_at :
    (host : Host) (project session_id : String) (w : World) (c : ℕ)
    → read_attempts host project session_id w ≡ ok (count c)
    → (path : FilePath) × (located host project session_id ≡ ok path)
      × (read_counter path (w.files path) ≡ ok c)
unfolding read_attempts
counted_at host project session_id w c h =
    counted_parts (located host project session_id) (λ p. read_counter p (w.files p)) c h

module _ (host : Host) (project session_id : String) (cap : ℕ) where
  -- The lines of one failed gate after another; `Legacy` is what the agent left before each.
  unfoldable pub failures : List Legacy → World → List (Except Line)
  failures [] w = []
  failures (l ∷ ls) w =
      let (w', line) = record_failure host project session_id cap (record w { legacy = l }) in
      line ∷ failures ls w'

  retries_from :
      (ls : List Legacy) (w : World) (path : FilePath) (c : ℕ)
      → located host project session_id ≡ ok path
      → read_counter path (w.files path) ≡ ok c
      → All IsRetry (failures ls w)
      → (ls ≡ []) ⊎ (c + length ls < cap)
  unfolding failures
  retries_from [] w path c p k h = inl refl
  retries_from (l ∷ ls) w path c p k h =
      let w₁ : World = record w { legacy = l } in
      let (n, e) = retry_number (record_failure host project session_id cap w₁).1 h.0 in
      let (path', p', kept) = Kept-of_retry host project session_id cap w₁ n e in
      let q : path' ≡ path = cc (p, p') in
      let was = subst (λ x. read_counter x (w.files x) ≡ ok kept.before) q kept.was in
      let same : c ≡ kept.before = cc (k, was) in
      elim (retries_from ls (record_failure host project session_id cap w₁).0 path' n p' kept.now
        h.1) [
          | inl e ↦ inr (rw e (omega (arith, kept.grows, kept.below)))
          | inr lt ↦ inr (omega (arith, kept.grows, kept.below))
        ]

  -- If every line of a run of failed gates is a retry, whatever the agent leaves inside the tree
  -- before each of them, then the count on record before the run and the length of the run stay
  -- below the cap together.
  pub retries_bounded :
      (ls : List Legacy) (w : World) (c : ℕ)
      → read_attempts host project session_id w ≡ ok (count c)
      → ls ≢ []
      → All IsRetry (failures ls w)
      → c + length ls < cap
  retries_bounded ls w c h some_ retries =
      let (path, p, k) = counted_at host project session_id w c h in
      elim (retries_from ls w path c p k retries) [ inl none_ ↦ absurd (some_ none_) | inr lt ↦ lt ]
