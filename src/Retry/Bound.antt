-- ===== src/Retry/Bound.antt =====
-- The bound on the retries of a session: what a `retry` line says of the recorded count, and how
-- many of them the hook can answer in a row, whatever the governed agent does inside the tree.
use borromean_rings.Base.{
  ℕ, ◌<◌, String, ◌≡◌, refl, ◌⊎◌, inl, inr, Bool, true, Option, arith, Bool-cases, leb, ap, ◌∙◌,
  subst,
}
use borromean_rings.Base.Decimal.{show}
use borromean_rings.StateHome.{FilePath, Except, ok, unavailable, value_error, cannot_write, ◌>>=◌}
use borromean_rings.StateHome.Inside.{path_eq_refl}
use borromean_rings.Retry.Count.{
  Decision, decide, File, content, read_counter, count_chars, int_max_str_digits,
}
use borromean_rings.Retry.Count.Printed.{read_counter-show}
use borromean_rings.Retry.Legacy.{dirs_for, read_legacy}
use borromean_rings.Retry.Session.{legacy_name}
use borromean_rings.Retry.Hook.{
  Host, World, retry, Reading, read_failure, counted, located, act, fail_at, record_failure, update,
  write_counter,
}

-- What a reading says of the parts that it was made from.
counted_parts :
    (p : FilePath) (d : Bool) (kept : FilePath → Except ℕ) (k o : Except ℕ) (r : Reading)
    → kept p ≡ k
    → (do n ← k; m ← o; ok (counted p d n m)) ≡ ok r
    → (n : ℕ) × (p ≡ r.path) × (kept r.path ≡ ok n) × (n < r.attempts)
counted_parts p d kept (ok k) (ok o) r e h =
    let q : p ≡ r.path = ground arith in (k, q, subst (λ x. kept x ≡ ok k) q e, ground arith)
counted_parts p d kept (ok k) (unavailable s) r e h = cc
counted_parts p d kept (ok k) value_error r e h = cc
counted_parts p d kept (unavailable s) o r e h = cc
counted_parts p d kept value_error o r e h = cc

pub reading_parts :
    (path : Except FilePath) (dirs : Except Bool) (kept : FilePath → Except ℕ)
    (old : Bool → Except ℕ) (r : Reading)
    → (do p ← path; d ← dirs; k ← kept p; o ← old d; ok (counted p d k o)) ≡ ok r
    → (k : ℕ) × (path ≡ ok r.path) × (kept r.path ≡ ok k) × (k < r.attempts)
reading_parts (ok p) (ok d) kept old r h =
    let (n, q, f, g) = counted_parts p d kept (kept p) (old d) r refl h in (n, ap ok q, f, g)
reading_parts (ok p) (unavailable r) kept old s h = cc
reading_parts (ok p) value_error kept old s h = cc
reading_parts (unavailable r) dirs kept old s h = cc
reading_parts value_error dirs kept old s h = cc

-- The count on record grows with every `retry` line, stays below the cap, and is kept.
pub record Kept (w w' : World) (path : FilePath) (cap n : ℕ) : Type 0 where
  pub before : ℕ
  pub was : read_counter path (w.files path) ≡ ok before
  pub grows : before < n
  pub below : n < cap
  pub now : read_counter path (w'.files path) ≡ ok n

abbrev pub written : World → FilePath → ℕ → World
written w path n = record w { files = update w.files path (content (show n)) }

-- A write replaces the count, or changes nothing and fails.
pub write_cases :
    (path : FilePath) (n : ℕ) (w : World)
    → (write_counter path n w ≡ (written w path n, ok tt))
        × (leb (count_chars (show n)) int_max_str_digits ≡ true)
      ⊎ (write_counter path n w ≡ (w, unavailable (cannot_write path)))
      ⊎ (write_counter path n w ≡ (w, value_error))
unfolding write_counter
write_cases path n w = elim (Bool-cases (leb (count_chars (show n)) int_max_str_digits)) [
  | inl short ↦ elim (Bool-cases (w.writable path)) [
    | inl writes ↦ inl (rw (short, writes), short)
    | inr refused ↦ inr (inl (rw (short, refused)))
  ]
  | inr long ↦ inr (inr (rw long))
]

act_retry :
    (name : Option String) (r : Reading) (w : World) (n : ℕ)
    → (act name r Decision.retry w).1 ≡ ok (retry n)
    → (r.attempts ≡ n)
      × (leb (count_chars (show r.attempts)) int_max_str_digits ≡ true)
      × ((act name r Decision.retry w).0.files ≡ update w.files r.path (content (show r.attempts)))
act_retry name r w n h = elim (write_cases r.path r.attempts w) [
  | inl (e, short) ↦ (cc, short, rw e)
  | inr (inl e) ↦ cc
  | inr (inr e) ↦ cc
]

pub update_self :
    (files : FilePath → File) (path : FilePath) (file : File) → update files path file path ≡ file
update_self files path file = rw path_eq_refl

act_kept :
    (name : Option String) (r : Reading) (d : Decision) (w : World) (n : ℕ)
    → (act name r d w).1 ≡ ok (retry n)
    → (d ≡ Decision.retry)
      × (r.attempts ≡ n)
      × (read_counter r.path ((act name r d w).0.files r.path) ≡ ok n)
act_kept name r Decision.escalate w n h = cc
act_kept name r Decision.retry w n h =
    let (e, short, f) = act_retry name r w n h in
    (refl, e, rw f (rw update_self (read_counter-show r.path r.attempts short ∙ ap ok e)))

module _ (host : Host) (project session_id : String) (cap : ℕ) where
  Kept-from :
      (w : World) (n : ℕ) (read : Except Reading)
      → read_failure host project session_id w ≡ read
      → (fail_at session_id cap w read).1 ≡ ok (retry n)
      → (path : FilePath) × (located host project session_id ≡ ok path)
        × Kept w (fail_at session_id cap w read).0 path cap n
  unfolding read_failure decide
  Kept-from w n (unavailable s) e h = cc
  Kept-from w n value_error e h = cc
  Kept-from w n (ok r) e h =
      let (before, at_path, was, grows) =
        reading_parts (located host project session_id) (dirs_for (legacy_name session_id) w.legacy)
          (λ p. read_counter p (w.files p)) (λ d. read_legacy d (legacy_name session_id) w.legacy) r
          e in
      let (chosen, counts, now) =
        act_kept (legacy_name session_id) r (decide r.attempts cap) w n h in
      (
        r.path,
        at_path,
        record {
          before = before;
          was = was;
          grows = ground arith;
          below = ground arith;
          now = now;
        },
      )

  pub Kept-of_retry :
      (w : World) (n : ℕ)
      → (record_failure host project session_id cap w).1 ≡ ok (retry n)
      → (path : FilePath) × (located host project session_id ≡ ok path)
        × Kept w (record_failure host project session_id cap w).0 path cap n
  unfolding record_failure
  Kept-of_retry w n h = Kept-from w n (read_failure host project session_id w) refl h
