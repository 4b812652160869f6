-- ===== src/Retry/Outcomes.antt =====
-- What one operation on the count answers and what it leaves alone.
use borromean_rings.Base.{
  ℕ, ◌+◌, max, String, ◌≡◌, refl, ◌≢◌, inl, inr, Bool, true, Option, arith, ltb, leb, if◌then◌else◌,
  Bool-cases,
}
use borromean_rings.Base.{false, ◌&&◌, ◌⊎◌, none}
use borromean_rings.Base.Decimal.{show, strip, is_digit, from_digits}
use borromean_rings.StateHome.{
  cannot_read, corrupt_count, FilePath, Reason, Except, ok, unavailable, value_error, ◌>>=◌,
}
use borromean_rings.Retry.Count.{
  File, missing, unreadable, undecodable, content, parse_count, parse_stripped, decide,
  read_counter, count_chars, int_max_str_digits,
}
use borromean_rings.Retry.Legacy.{Legacy, dirs_for, read_legacy}
use borromean_rings.Retry.Session.{legacy_name}
use borromean_rings.Retry.Hook.{
  Host, World, Line, retry, escalate, count, unrecorded, Reading, located, read_failure,
  record_failure, read_attempts, caught, write_counter, act, counted,
}

-- The answer to a failure that brings the count to `n`.
abbrev pub answer : ℕ → ℕ → Line
answer n cap = if ltb n cap then retry n else escalate n

act-answer :
    (name : Option String) (r : Reading) (cap : ℕ) (w : World)
    → w.writable r.path ≡ true
    → leb (count_chars (show r.attempts)) int_max_str_digits ≡ true
    → (act name r (decide r.attempts cap) w).1 ≡ ok (answer r.attempts cap)
unfolding decide write_counter
act-answer name r cap w writes short = elim (Bool-cases (ltb r.attempts cap)) [
  | inl below ↦ rw below (rw (short, writes))
  | inr above ↦ rw above
]

dirs_for-ne-value_error : (name : Option String) (l : Legacy) → dirs_for name l ≢ value_error
unfolding dirs_for
dirs_for-ne-value_error name l = ground arith

unread_count :
    (p : FilePath) (dirs : Except Bool) (k : Except ℕ) (old : Bool → Except ℕ) (r : Reason)
    → dirs ≢ value_error
    → caught (do n ← k; ok (count n)) ≡ ok (unrecorded r)
    → (s : Reason) × ((do d ← dirs; n ← k; o ← old d; ok (counted p d n o)) ≡ unavailable s)
unread_count p (ok d) (unavailable s) old r ne h = (s, refl)
unread_count p (ok d) (ok n) old r ne h = cc
unread_count p (ok d) value_error old r ne h = cc
unread_count p (unavailable s) k old r ne h = (s, refl)
unread_count p value_error k old r ne h = absurd (ne refl)

unread_parts :
    (path : Except FilePath) (dirs : Except Bool) (read : FilePath → Except ℕ)
    (old : Bool → Except ℕ) (r : Reason)
    → dirs ≢ value_error
    → caught (do p ← path; n ← read p; ok (count n)) ≡ ok (unrecorded r)
    → (s : Reason) × ((do p ← path; d ← dirs; n ← read p; o ← old d; ok (counted p d n o))
        ≡ unavailable s)
unread_parts (ok p) dirs read old r ne h = unread_count p dirs (read p) old r ne h
unread_parts (unavailable s) dirs read old r ne h = (s, refl)
unread_parts value_error dirs read old r ne h = cc

abbrev pub all_digits : String → Bool
all_digits String.[] = true
all_digits (String.◌∷◌ c s) = is_digit c && all_digits s

-- A run of ASCII digits, at least one.
abbrev pub is_number : String → Bool
is_number String.[] = false
is_number (String.◌∷◌ c s) = all_digits (String.◌∷◌ c s)

-- A file that cannot be opened, or whose text is no number.
abbrev pub HoldsNoCount : File → Type 0
HoldsNoCount missing = ⊥
HoldsNoCount unreadable = Unit
HoldsNoCount undecodable = ⊥
HoldsNoCount (content s) = is_number (strip s) ≡ false

from_digits-none : (s : String) (n : ℕ) → all_digits s ≡ false → from_digits n s ≡ none
unfolding from_digits
from_digits-none String.[] n h = cc
from_digits-none (String.◌∷◌ c s) n h = elim (Bool-cases (is_digit c)) [
  | inl e ↦ rw e (from_digits-none s _ (rw e at h))
  | inr e ↦ rw e refl
]

no_number : (s : String) → is_number s ≡ false → parse_stripped s ≡ ok none
no_number String.[] h = refl
no_number (String.◌∷◌ c s) h = rw (from_digits-none (String.◌∷◌ c s) 0 h) refl

HoldsNoCount-unavailable :
    (path : FilePath) (file : File)
    → HoldsNoCount file
    → (r : Reason) × (read_counter path file ≡ unavailable r)
unfolding read_counter parse_count
HoldsNoCount-unavailable path missing h = absurd h
HoldsNoCount-unavailable path unreadable h = (cannot_read path, refl)
HoldsNoCount-unavailable path undecodable h = absurd h
HoldsNoCount-unavailable path (content s) h = (corrupt_count path, rw (no_number (strip s) h) refl)

module _ (host : Host) (project session_id : String) where
  read_failure-counted :
      (w : World) (path : FilePath) (dirs : Bool) (kept old : ℕ)
      → located host project session_id ≡ ok path
      → dirs_for (legacy_name session_id) w.legacy ≡ ok dirs
      → read_counter path (w.files path) ≡ ok kept
      → read_legacy dirs (legacy_name session_id) w.legacy ≡ ok old
      → read_failure host project session_id w ≡ ok (counted path dirs kept old)
  unfolding read_failure
  read_failure-counted w path dirs kept old p d k o = rw p (rw d (rw k (rw o)))

  read_failure-unavailable :
      (w : World) (r : Reason)
      → read_attempts host project session_id w ≡ ok (unrecorded r)
      → (s : Reason) × (read_failure host project session_id w ≡ unavailable s)
  unfolding read_failure read_attempts
  read_failure-unavailable w r h =
      unread_parts (located host project session_id) (dirs_for (legacy_name session_id) w.legacy)
        (λ p. read_counter p (w.files p)) (λ d. read_legacy d (legacy_name session_id) w.legacy) r
        (dirs_for-ne-value_error (legacy_name session_id) w.legacy) h

  -- A failed gate whose count can be kept is answered by the number of failures on record, here
  -- and in the tree, and one: a retry below the cap, an escalation from the cap on.
  pub record_failure-answer :
      (cap : ℕ) (w : World) (path : FilePath) (dirs : Bool) (kept old : ℕ)
      → located host project session_id ≡ ok path
      → dirs_for (legacy_name session_id) w.legacy ≡ ok dirs
      → read_counter path (w.files path) ≡ ok kept
      → read_legacy dirs (legacy_name session_id) w.legacy ≡ ok old
      → w.writable path ≡ true
      → leb (count_chars (show (max kept old + 1))) int_max_str_digits ≡ true
      → (record_failure host project session_id cap w).1 ≡ ok (answer (max kept old + 1) cap)
  unfolding record_failure
  record_failure-answer cap w path dirs kept old p d k o writes short =
      rw (read_failure-counted w path dirs kept old p d k o)
        (act-answer (legacy_name session_id) (counted path dirs kept old) cap w writes short)

  unrecorded_from :
      (cap : ℕ) (w : World) (r : Reason)
      → read_attempts host project session_id w ≡ ok (unrecorded r)
      → (s : Reason) × (record_failure host project session_id cap w ≡ (w, ok (unrecorded s)))
  unfolding record_failure
  unrecorded_from cap w r h = let (s, e) = read_failure-unavailable w r h in (s, rw e)

  refused_location :
      (w : World) (r : Reason)
      → located host project session_id ≡ unavailable r
      → read_attempts host project session_id w ≡ ok (unrecorded r)
  unfolding read_attempts
  refused_location w r h = rw h refl

  refused_file :
      (w : World) (path : FilePath) (r : Reason)
      → located host project session_id ≡ ok path
      → read_counter path (w.files path) ≡ unavailable r
      → read_attempts host project session_id w ≡ ok (unrecorded r)
  unfolding read_attempts
  refused_file w path r h e = rw (h, e) refl

  -- The count on record is kept from the hook: no directory for it may be used, or its file cannot
  -- be opened, or its file holds a text that is no number.
  abbrev pub IsKeptBack : World → Type 0
  IsKeptBack w =
      ((r : Reason) × (located host project session_id ≡ unavailable r))
      ⊎ ((path : FilePath) × (located host project session_id ≡ ok path)
          × HoldsNoCount (w.files path))

  -- Where no directory for the count may be used, where its file cannot be opened, or where its file
  -- holds a text that is no run of ASCII digits between white space, a failed gate is answered
  -- `unrecorded` and nothing is written: the count is never taken for zero. A file that is not UTF-8
  -- and a number of more than 4300 digits are not among these: they raise.
  pub record_failure-unrecorded :
      (cap : ℕ) (w : World)
      → IsKeptBack w
      → (s : Reason) × (record_failure host project session_id cap w ≡ (w, ok (unrecorded s)))
  record_failure-unrecorded cap w (inl (r, h)) = unrecorded_from cap w r (refused_location w r h)
  record_failure-unrecorded cap w (inr (path, h, c)) =
      let (r, e) = HoldsNoCount-unavailable path (w.files path) c in
      unrecorded_from cap w r (refused_file w path r h e)
