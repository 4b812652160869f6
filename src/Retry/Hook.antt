-- ===== src/Retry/Hook.antt =====
-- The operations of the Stop hook and of the headless driver on the count (retry_state.py).
use borromean_rings.Base.{ℕ, ◌+◌, max, String, Bool, Option, [], ◌∷◌, ◌++◌, leb, if◌then◌else◌}
use borromean_rings.Base.Decimal.{show}
use borromean_rings.StateHome.{
  FilePath, Reason, Except, ok, unavailable, value_error, root_inside_project, cannot_write, Env,
  state_root, project_digest, path_eq, path_text, is_inside, ◌>>=◌,
}
use borromean_rings.Retry.Count.{
  Decision, decide, File, missing, content, read_counter, count_chars, int_max_str_digits,
}
use borromean_rings.Retry.Legacy.{Legacy, dirs_for, read_legacy, retire_legacy}
use borromean_rings.Retry.Session.{session_filename, legacy_name}

-- What the environment gives: variables, `os.path.realpath`, and the hex digest of a text.
pub record Host : Type 0 where
  pub env : Env
  pub resolve : String → FilePath
  pub sha256 : String → String

-- The files outside the tree, where writing and removing succeed, and the counter inside the tree.
pub record World : Type 0 where
  pub files : FilePath → File
  pub writable : FilePath → Bool
  pub removable : FilePath → Bool
  pub legacy : Legacy

abbrev pub update : (FilePath → File) → FilePath → File → FilePath → File
update files path file other = if path_eq path other then file else files other

-- The verdict lines that the hook reads.
pub data Line : Type 0 where
  retry escalate count recorded : ℕ → Line
  unrecorded : Reason → Line

unfoldable pub counter_path : Host → FilePath → String → Except FilePath
counter_path host resolved_project session_id = do
  root ← state_root host.env
  ok (
      root
      ++ "borromeanrings"
        ∷ project_digest host.sha256 resolved_project
        ∷ "stop_attempts"
        ∷ session_filename host.sha256 session_id
        ∷ [])

unfoldable pub located : Host → String → String → Except FilePath
located host project key =
    let resolved = host.resolve project in
    do
      state ← state_root host.env
      let root = host.resolve (path_text state)
      (if is_inside root resolved
          then unavailable (root_inside_project root)
          else counter_path host resolved key)

-- The file is replaced as a whole or, with an error, left as it was.
unfoldable pub write_counter : FilePath → ℕ → World → World × Except (Unit {0})
write_counter path value w =
    if leb (count_chars (show value)) int_max_str_digits
    then if w.writable path
      then (record w { files = update w.files path (content (show value)) }, ok tt)
      else (w, unavailable (cannot_write path))
    else (w, value_error)

-- `path.unlink()` with its errors suppressed.
unfoldable pub unlink_counter : FilePath → World → World
unlink_counter path w =
    if w.removable path then record w { files = update w.files path missing } else w

-- `except StateUnavailable`: the reason becomes a line.
abbrev pub caught : Except Line → Except Line
caught (unavailable r) = ok (unrecorded r)
caught e = e

unfoldable pub read_attempts : Host → String → String → World → Except Line
read_attempts host project key w =
    caught (do path ← located host project key; n ← read_counter path (w.files path); ok (count n))

abbrev pub finish_record : ℕ → World × Except (Unit {0}) → World × Except Line
finish_record n (w, e) = (w, caught (e >>= λ _. ok (recorded n)))

abbrev pub record_at : ℕ → World → Except FilePath → World × Except Line
record_at attempt w (ok path) = finish_record attempt (write_counter path attempt w)
record_at attempt w (unavailable r) = (w, ok (unrecorded r))
record_at attempt w value_error = (w, value_error)

-- `attempt` is no negative number.
unfoldable pub record_attempt : Host → String → String → ℕ → World → World × Except Line
record_attempt host project key attempt w = record_at attempt w (located host project key)

-- What `record_failure` reads before it writes anything.
pub record Reading : Type 0 where
  pub path : FilePath
  pub dirs : Bool
  pub attempts : ℕ

abbrev pub counted : FilePath → Bool → ℕ → ℕ → Reading
counted path dirs kept old = record { path = path; dirs = dirs; attempts = max kept old + 1 }

unfoldable pub read_failure : Host → String → String → World → Except Reading
read_failure host project session_id w = do
  path ← located host project session_id
  dirs ← dirs_for (legacy_name session_id) w.legacy
  kept ← read_counter path (w.files path)
  old ← read_legacy dirs (legacy_name session_id) w.legacy
  ok (counted path dirs kept old)

-- The write, or the removal, and then the retirement of the counter inside the tree.
abbrev pub finish_retry : Bool → Option String → ℕ → World × Except (Unit {0}) → World × Except Line
finish_retry dirs name n (w, ok u) =
    (record w { legacy = retire_legacy dirs name w.legacy }, ok (retry n))
finish_retry dirs name n (w, unavailable r) = (w, ok (unrecorded r))
finish_retry dirs name n (w, value_error) = (w, value_error)

abbrev pub finish_escalate : Bool → Option String → ℕ → World → World × Except Line
finish_escalate dirs name n w =
    (record w { legacy = retire_legacy dirs name w.legacy }, ok (escalate n))

abbrev pub act : Option String → Reading → Decision → World → World × Except Line
act name r Decision.retry w =
    finish_retry r.dirs name r.attempts (write_counter r.path r.attempts w)
act name r Decision.escalate w = finish_escalate r.dirs name r.attempts (unlink_counter r.path w)

abbrev pub fail_at : String → ℕ → World → Except Reading → World × Except Line
fail_at session_id cap w (ok r) = act (legacy_name session_id) r (decide r.attempts cap) w
fail_at session_id cap w (unavailable r) = (w, ok (unrecorded r))
fail_at session_id cap w value_error = (w, value_error)

unfoldable pub record_failure : Host → String → String → ℕ → World → World × Except Line
record_failure host project session_id cap w =
    fail_at session_id cap w (read_failure host project session_id w)

-- `contextlib.suppress(StateUnavailable)` round the retirement.
abbrev pub retire_if : Option String → Except Bool → World → World
retire_if name (ok dirs) w = record w { legacy = retire_legacy dirs name w.legacy }
retire_if name e w = w

abbrev pub unlink_if : Except FilePath → World → World
unlink_if (ok path) w = unlink_counter path w
unlink_if e w = w

unfoldable pub clear : Host → String → String → World → World
unfolding unlink_counter
clear host project session_id w =
    unlink_if (counter_path host (host.resolve project) session_id)
      (retire_if (legacy_name session_id) (dirs_for (legacy_name session_id) w.legacy) w)
