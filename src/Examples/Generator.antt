-- ===== src/Examples/Generator.antt =====
-- Decisions of the generator loop at concrete inputs.
use borromean_rings.Base.{◌≡◌, refl, true, false, some, [], ◌∷◌}
use borromean_rings.Json.{pos}
use borromean_rings.Gate.Verdict.{Verdict}
use borromean_rings.Base.Names.{sorted_names, insert_name}
use borromean_rings.Generator.{
  escalated, generator_failed, next_action, other_run, verdict_mismatch, Snapshot, lookup, added,
  modified, evidence_writes, writes_among,
}

failed_test : next_action 1 3 true true (pos 2) ≡ some generator_failed
unfolding next_action
failed_test = refl

last_test : next_action 3 3 false true (pos 0) ≡ some escalated
unfolding next_action
last_test = refl

abbrev red : Verdict
red = record {
  ok = false;
  checks = ("10_lint", "fail") ∷ ("12_secrets", "pass") ∷ [];
  run_id = "r7";
  digest = "";
  harness_version = "";
  risk = "red";
  intent = record { branch = ""; head_sha = ""; input_digest = ""; generator = "" };
  evidence = [];
  lane = "full";
}

stale_test : verdict_mismatch (some red) "r8" false ≡ other_run
unfolding verdict_mismatch
stale_test = refl

abbrev before : Snapshot
before = ("last_verdict.json", "12:aa") ∷ ("stop_attempts", "type:4") ∷ []

abbrev after : Snapshot
after = ("stop_attempts", "type:4") ∷ ("last_verdict.json", "12:bb") ∷ ("a", "0:cc") ∷ []

writes_test : evidence_writes before after ≡ added "a" ∷ modified "last_verdict.json" ∷ []
unfolding evidence_writes writes_among sorted_names insert_name lookup
writes_test = refl
