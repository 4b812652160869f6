-- ===== src/Retry/Effects.antt =====
-- What an operation on the count leaves in the files.
use borromean_rings.Base.{
  ℕ, String, ◌≡◌, refl, inl, inr, Bool, true, false, Option, arith, ap, ◌∙◌, subst, Bool-cases,
}
use borromean_rings.StateHome.{FilePath, Except, ok, unavailable, value_error, path_eq}
use borromean_rings.Retry.Count.{Decision, decide, missing, read_counter}
use borromean_rings.Retry.Count.Printed.{read_counter-show}
use borromean_rings.Retry.Legacy.{dirs_for, read_legacy}
use borromean_rings.Retry.Session.{legacy_name}
use borromean_rings.Retry.Hook.{
  Host, World, count, recorded, Reading, located, counter_path, read_failure, record_failure,
  read_attempts, record_attempt, clear, unlink_counter, write_counter, act, fail_at, record_at,
  finish_record, retire_if,
}
use borromean_rings.Retry.Bound.{write_cases, update_self, reading_parts}

read_attempts-count :
    (host : Host) (project key : String) (w : World) (path : FilePath) (n : ℕ)
    → located host project key ≡ ok path
    → read_counter path (w.files path) ≡ ok n
    → read_attempts host project key w ≡ ok (count n)
unfolding read_attempts
read_attempts-count host project key w path n p k = rw p (rw k)

recorded_from :
    (path : FilePath) (n : ℕ) (w : World)
    → (finish_record n (write_counter path n w)).1 ≡ ok (recorded n)
    → read_counter path ((finish_record n (write_counter path n w)).0.files path) ≡ ok n
recorded_from path n w h = elim (write_cases path n w) [
  | inl (e, short) ↦ rw e (rw update_self (read_counter-show path n short))
  | inr (inl e) ↦ cc
  | inr (inr e) ↦ cc
]

recorded_at :
    (host : Host) (project key : String) (n : ℕ) (w : World) (place : Except FilePath)
    → located host project key ≡ place
    → (record_at n w place).1 ≡ ok (recorded n)
    → read_attempts host project key (record_at n w place).0 ≡ ok (count n)
recorded_at host project key n w (ok path) e h =
    read_attempts-count host project key (record_at n w (ok path)).0 path n e
      (recorded_from path n w h)
recorded_at host project key n w (unavailable r) e h = cc
recorded_at host project key n w value_error e h = cc

-- An attempt that is answered `recorded` is the count that is read next.
pub read_attempts-record_attempt :
    (host : Host) (project key : String) (n : ℕ) (w : World)
    → (record_attempt host project key n w).1 ≡ ok (recorded n)
    → read_attempts host project key (record_attempt host project key n w).0 ≡ ok (count n)
unfolding record_attempt
read_attempts-record_attempt host project key n w h =
    recorded_at host project key n w (located host project key) refl h

counter_path-located :
    (host : Host) (project key : String) (path : FilePath)
    → located host project key ≡ ok path
    → counter_path host (host.resolve project) key ≡ ok path
unfolding located
counter_path-located host project key path h = ground arith

retire_if-keeps :
    (name : Option String) (dirs : Except Bool) (w : World)
    → ((retire_if name dirs w).files ≡ w.files) × ((retire_if name dirs w).removable ≡ w.removable)
retire_if-keeps name (ok dirs) w = (refl, refl)
retire_if-keeps name (unavailable r) w = (refl, refl)
retire_if-keeps name value_error w = (refl, refl)

unlink_counter_self :
    (path : FilePath) (w : World)
    → w.removable path ≡ true
    → (unlink_counter path w).files path ≡ missing
unfolding unlink_counter
unlink_counter_self path w h = rw h (update_self w.files path missing)

cleared :
    (host : Host) (project session_id : String) (w : World) (path : FilePath)
    → located host project session_id ≡ ok path
    → w.removable path ≡ true
    → (clear host project session_id w).files path ≡ missing
unfolding clear
cleared host project session_id w path p removable =
    let name = legacy_name session_id in
    let w₁ : World = retire_if name (dirs_for name w.legacy) w in
    let kept = (retire_if-keeps name (dirs_for name w.legacy) w).1 in
    rw (counter_path-located host project session_id path p)
      (unlink_counter_self path w₁ (ap (λ f. f path) kept ∙ removable))

-- After a passing gate the session's count reads as zero, if its file can be removed.
pub read_attempts-clear :
    (host : Host) (project session_id : String) (w : World) (path : FilePath)
    → located host project session_id ≡ ok path
    → w.removable path ≡ true
    → read_attempts host project session_id (clear host project session_id w) ≡ ok (count 0)
unfolding read_counter
read_attempts-clear host project session_id w path p removable =
    read_attempts-count host project session_id (clear host project session_id w) path 0 p
      (rw (cleared host project session_id w path p removable))

unlink_counter-other :
    (path other : FilePath) (w : World)
    → path_eq path other ≡ false
    → (unlink_counter path w).files other ≡ w.files other
unfolding unlink_counter
unlink_counter-other path other w ne = elim (Bool-cases (w.removable path)) [
  | inl yes_ ↦ rw yes_ (rw ne)
  | inr no_ ↦ rw no_
]

act_other :
    (name : Option String) (r : Reading) (d : Decision) (w : World) (other : FilePath)
    → path_eq r.path other ≡ false
    → (act name r d w).0.files other ≡ w.files other
act_other name r Decision.escalate w other ne = unlink_counter-other r.path other w ne
act_other name r Decision.retry w other ne = elim (write_cases r.path r.attempts w) [
  | inl (e, short) ↦ rw e (rw ne)
  | inr (inl e) ↦ rw e
  | inr (inr e) ↦ rw e
]

module _ (host : Host) (project session_id : String) (cap : ℕ) (w : World)
    (path other : FilePath) where
  fail_at_other :
      (read : Except Reading)
      → read_failure host project session_id w ≡ read
      → located host project session_id ≡ ok path
      → path_eq path other ≡ false
      → (fail_at session_id cap w read).0.files other ≡ w.files other
  unfolding read_failure
  fail_at_other (ok r) e p ne =
      let (before, at_path, was, grows) =
        reading_parts (located host project session_id) (dirs_for (legacy_name session_id) w.legacy)
          (λ p. read_counter p (w.files p)) (λ d. read_legacy d (legacy_name session_id) w.legacy) r
          e in
      let q : path ≡ r.path = cc (p, at_path) in
      act_other (legacy_name session_id) r (decide r.attempts cap) w other
        (subst (λ x. path_eq x other ≡ false) q ne)
  fail_at_other (unavailable r) e p ne = refl
  fail_at_other value_error e p ne = refl

  -- Counting a failure of one session leaves every file but that session's own as it was.
  pub record_failure-other :
      located host project session_id ≡ ok path
      → path_eq path other ≡ false
      → (record_failure host project session_id cap w).0.files other ≡ w.files other
  unfolding record_failure
  record_failure-other p ne = fail_at_other (read_failure host project session_id w) refl p ne
