-- ===== src/Examples/Ledger.antt =====
-- Ledger rows at concrete histories.
use borromean_rings.Base.{none, inl}
use borromean_rings.Gate.History.{append_history}
use borromean_rings.Ledger.{ledger_row}
use borromean_rings.Ledger.Recorded.{IsAdvanced, ledger_row-append_history}
use borromean_rings.Examples.Gate.{sample, tiny_codec, tiny_codec-IsFaithful}
use borromean_rings.Base.{◌≡◌, refl, Bool, true, false, List, [], ◌∷◌}
use borromean_rings.Gate.Verdict.{Verdict}
use borromean_rings.Ledger.{summarize_history}

abbrev run : Bool → Verdict
run ok = record {
  ok = ok;
  checks = [];
  run_id = "";
  digest = "";
  harness_version = "";
  risk = "";
  intent = record { branch = ""; head_sha = ""; input_digest = ""; generator = "" };
  evidence = [];
  lane = "";
}

abbrev history : List Verdict
history = run false ∷ run true ∷ run true ∷ []

history_summary :
    ((summarize_history "p" history).current_streak ≡ 2)
    × ((summarize_history "p" history).failures_caught ≡ 1)
    × ((summarize_history "p" history).streak_kind ≡ "green")
unfolding summarize_history
history_summary = (refl, refl, refl)

ledger_row-append_history_example :
    IsAdvanced sample
      (ledger_row tiny_codec ("p", none))
      (ledger_row tiny_codec ("p", append_history tiny_codec none sample))
ledger_row-append_history_example =
    ledger_row-append_history tiny_codec "p" none sample (inl refl) tiny_codec-IsFaithful
