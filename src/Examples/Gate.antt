-- ===== src/Examples/Gate.antt =====
-- Runs, records and histories of the gate at concrete inputs.
use borromean_rings.Base.{false, ◌==◌, if◌then◌else◌}
use borromean_rings.Base.Decimal.{strip, strip_left, strip_right}
use borromean_rings.Words.{split_lines}
use borromean_rings.Gate.Label.{first_line, status_label}
use borromean_rings.Gate.Label.Bounded.{is_reported, IsLabel, status_label-IsLabel}
use borromean_rings.Base.{String, ◌≡◌, refl, inl, true, none, some, List, [], ◌∷◌, ◌++◌}
use borromean_rings.Json.{Value, Fields, no_members, member, str, int, pos}
use borromean_rings.Gate.Status.{risk_band, risk_hollow, is_failing}
use borromean_rings.Gate.Verdict.{Verdict, to_dict}
use borromean_rings.Gate.History.{Codec, read_history, append_all}
use borromean_rings.Gate.History.Growth.{IsFaithful, read_history-append_all}
use borromean_rings.Base.Text.{is_break, is_blank, is_space}

abbrev mixed_run : List (String × String)
mixed_run = ("00_build", "pass") ∷ ("12_secrets", "noop") ∷ []

mixed_run_hollow : risk_band mixed_run ≡ risk_hollow
unfolding risk_band is_failing
mixed_run_hollow = refl

abbrev plain_repr : Value → String
plain_repr v = "?"

abbrev pub sample : Verdict
sample = record {
  ok = true;
  checks = mixed_run;
  run_id = "20260919T122126Z";
  digest = "3adc43f0";
  harness_version = "51ff4cf";
  risk = "hollow";
  intent = record { branch = "dev"; head_sha = "fd0d8eb"; input_digest = "9c"; generator = "" };
  evidence =
      record {
        check = "00_build";
        command = "python -m compileall";
        exit_code = pos 0;
        log = "00_build.log";
        log_bytes = pos 41;
        content_sha256 = "8adf46ec";
        lane = "fast";
      }
      ∷ [];
  lane = "full";
}

abbrev receipt : Fields
receipt = member "check" (str "00_build") (member "exit_code" (int (pos 0)) no_members)

-- A codec that knows one record, written `{}`.
abbrev pub tiny_codec : Codec
tiny_codec = record {
  dumps = λ v. 123 ∷ 125 ∷ [];
  loads = λ line. some (to_dict sample);
  repr = plain_repr;
  raises = λ line. false;
}

pub tiny_codec-IsFaithful : IsFaithful tiny_codec sample
unfolding is_break is_blank is_space
tiny_codec-IsFaithful = record {
  one_line = (refl, (refl, tt));
  not_blank = refl;
  loads_back = refl;
}

read_history-append_all_example :
    read_history tiny_codec (append_all tiny_codec none (sample ∷ sample ∷ []))
    ≡ read_history tiny_codec none ++ sample ∷ sample ∷ []
read_history-append_all_example =
    read_history-append_all tiny_codec none (sample ∷ sample ∷ []) (inl refl)
      (tiny_codec-IsFaithful, (tiny_codec-IsFaithful, tt))

abbrev shout : String → String
shout status = if status == "pass" then "PASS" else status

status_label-IsLabel_example :
    IsLabel
      (is_reported (some (str "evaluated 3, score 1")))
      "evaluated 3, score 1"
      "PASS"
      (status_label shout "pass" (some (str "evaluated 3, score 1")))
status_label-IsLabel_example = status_label-IsLabel shout "pass" (some (str "evaluated 3, score 1"))

label_test : status_label shout "noop" (some (str " \n nothing \n more")) ≡ some "noop (nothing)"
unfolding status_label first_line strip strip_left strip_right is_space is_break split_lines
label_test = refl
