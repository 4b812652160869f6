-- ===== src/Examples/Retry.antt =====
-- The retry count at a concrete home, project and session.
use borromean_rings.Base.{◌+◌, ◌<◌, max, String, ◌≡◌, refl, true, false, [], ◌∷◌}
use borromean_rings.Base.Decimal.{show, digit_char, from_digits, strip, is_digit}
use borromean_rings.StateHome.{
  FilePath, Reason, ok, is_abs, components, path_text, project_digest, state_root, path_eq,
  is_inside,
}
use borromean_rings.Base.{inr}
use borromean_rings.Base.Text.{is_space}
use borromean_rings.Retry.Count.{missing, unreadable, read_counter, parse_count, decide}
use borromean_rings.Retry.Legacy.{Legacy, Node, Entry, dirs_for, read_legacy, retire_legacy}
use borromean_rings.Retry.Session.{is_verbatim, session_filename, legacy_name}
use borromean_rings.Retry.Session.Names.{session_filename_injective}
use borromean_rings.Retry.Hook.{
  Host, World, retry, escalate, count, unrecorded, located, counter_path, read_failure,
  record_failure, read_attempts, write_counter, unlink_counter,
}
use borromean_rings.Retry.Run.{failures, retries_bounded}
use borromean_rings.Retry.Outcomes.{answer, record_failure-answer, record_failure-unrecorded}

abbrev host : Host
host = record {
  env = record { xdg_state_home = ""; home = "/home/u" };
  resolve = components;
  sha256 = λ s. "0a1b";
}

-- A count of 7 that the agent planted inside the tree.
abbrev planted : Legacy
planted = record {
  project_opens = true;
  harness = Node.usable;
  attempts = Node.usable;
  entry = Entry.content "7\n";
  sealed = false;
  siblings = false;
}

abbrev clean : Legacy
clean = record planted { entry = Entry.missing }

abbrev start : World
start = record { files = λ p. missing; writable = λ p. true; removable = λ p. true; legacy = clean }

abbrev counter : FilePath
counter =
    "home" ∷ "u" ∷ ".local" ∷ "state" ∷ "borromeanrings" ∷ "0a1b" ∷ "stop_attempts" ∷ "s1" ∷ []

located_counter : located host "/work/p" "s1" ≡ ok counter
unfolding located counter_path state_root components is_abs is_inside session_filename is_verbatim
    project_digest path_text
located_counter = refl

three_failures :
    failures host "/work/p" "s1" 3 (clean ∷ clean ∷ clean ∷ []) start
    ≡ ok (retry 1) ∷ ok (retry 2) ∷ ok (escalate 3) ∷ []
unfolding failures record_failure read_failure located counter_path state_root components is_abs
    is_inside session_filename is_verbatim project_digest path_text dirs_for legacy_name
    read_counter read_legacy decide write_counter unlink_counter retire_legacy show digit_char
    parse_count strip from_digits is_digit is_space path_eq
three_failures = refl

at_start : read_attempts host "/work/p" "s1" start ≡ ok (count 0)
unfolding read_attempts located counter_path state_root components is_abs is_inside session_filename
    is_verbatim project_digest path_text read_counter
at_start = refl

two_retries :
    failures host "/work/p" "s1" 3 (planted ∷ []) (record start { legacy = clean })
    ≡ ok (escalate 8) ∷ []
unfolding failures record_failure read_failure located counter_path state_root components is_abs
    is_inside session_filename is_verbatim project_digest path_text dirs_for legacy_name
    read_counter read_legacy decide write_counter unlink_counter retire_legacy show digit_char
    parse_count strip from_digits is_digit is_space path_eq
two_retries = refl

retries_bounded_example : 0 + 2 < 3
unfolding failures record_failure read_failure located counter_path state_root components is_abs
    is_inside session_filename is_verbatim project_digest path_text dirs_for legacy_name
    read_counter read_legacy decide write_counter unlink_counter retire_legacy show digit_char
    parse_count strip from_digits is_digit is_space path_eq
retries_bounded_example =
    retries_bounded host "/work/p" "s1" 3 (clean ∷ clean ∷ []) start 0 at_start (λ e. cc)
      (tt, (tt, tt))

record_failure-answer_example :
    (record_failure host "/work/p" "s1" 3 (record start { legacy = planted })).1
    ≡ ok (answer (max 0 7 + 1) 3)
unfolding dirs_for legacy_name is_verbatim read_counter read_legacy parse_count strip from_digits
    is_digit is_space show digit_char
record_failure-answer_example =
    record_failure-answer host "/work/p" "s1" 3 (record start { legacy = planted }) counter true 0 7
      located_counter refl refl refl refl refl

abbrev unreadable_start : World
unreadable_start = record start { files = λ p. unreadable }

its_path : located host "/work/p" "s1" ≡ ok counter
unfolding located counter_path state_root components is_abs is_inside session_filename is_verbatim
    project_digest path_text
its_path = refl

record_failure-unrecorded_example :
    (s : Reason) × (record_failure host "/work/p" "s1" 3 unreadable_start
      ≡ (unreadable_start, ok (unrecorded s)))
record_failure-unrecorded_example =
    record_failure-unrecorded host "/work/p" "s1" 3 unreadable_start (inr (counter, its_path, tt))

session_filename_injective_example : ◌≡◌ {A = String} "s1" "s1"
session_filename_injective_example =
    session_filename_injective host.sha256 "s1" "s1" (λ e. refl) refl
