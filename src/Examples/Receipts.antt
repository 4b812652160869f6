-- ===== src/Examples/Receipts.antt =====
-- Receipts and a run's directory at concrete inputs. The stand-in digest is a mark and the first
-- characters of a text.
use borromean_rings.Base.{String, ◌≡◌, ◌≢◌, refl, true, false, some, List, [], ◌∷◌, ◌==◌}
use borromean_rings.Json.{str, object, Fields, member, no_members}
use borromean_rings.StateHome.{components, components_from, take_chars}
use borromean_rings.Receipts.{
  Tools, Disk, without_hash, add_last, compute_content_hash, finalize_receipt, verify_receipt,
  resolve_log_path, run_digest, join_lines, sorted_texts, insert_text, IntegrityReport,
  verify_files, judge_file, verify_dir,
}
use borromean_rings.Receipts.Intact.{Intact, verify_dir-ok}

abbrev tools : Tools
tools = record {
  canonical = λ fields. "{}";
  sha256 = λ s. String.◌∷◌ "#" (take_chars 8 s);
  repr = λ v. "?";
}

abbrev receipt : Fields
receipt =
    member "check" (str "10_lint")
      (member "content_sha256" (str "stale") (member "log" (str "/tmp/run/10_lint.log") no_members))

digest-nonempty : (s : String) → tools.sha256 s ≢ ""
digest-nonempty s e = let q : tools.sha256 s ≡ String.[] = e in cc

edited_test : verify_receipt tools (finalize_receipt tools receipt "2 files") "3 files" ≡ false
unfolding verify_receipt finalize_receipt compute_content_hash without_hash add_last
edited_test = refl

-- The log was moved beside its receipt.
abbrev disk : Disk
disk = record { exists = λ path. path == "out/10_lint.log"; text = λ path. some "2 files" }

abbrev sealed_receipt : Fields
sealed_receipt =
    member "log" (str "/tmp/run/10_lint.log")
      (member "content_sha256" (str "#{}\n#2 fi") no_members)

moved_test : resolve_log_path disk "out" "/tmp/run/10_lint.log" ≡ some "out/10_lint.log"
unfolding resolve_log_path components components_from
moved_test = refl

abbrev report : IntegrityReport
report = record { ok = true; tampered = []; unhashed = []; missing_log = []; digest = "##{}\n#2 f" }

verify_dir-ok_example :
    (hashes : List String) × Intact tools disk "out"
      (("10_lint", some (object sealed_receipt)) ∷ [])
      hashes
    × (report.digest ≡ run_digest tools hashes)
unfolding verify_dir verify_files judge_file resolve_log_path components components_from
    verify_receipt compute_content_hash without_hash run_digest join_lines sorted_texts insert_text
verify_dir-ok_example =
    verify_dir-ok tools disk "out" (("10_lint", some (object sealed_receipt)) ∷ []) report refl refl
