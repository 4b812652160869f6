-- ===== src/Gate/Evidence.antt =====
-- Per-check evidence and the gated intent (evidence.py). `repr` is Python's `str` on values that
-- are no strings; `size` is `os.path.getsize`, with `none` for an `OSError`.
pub mod Persisted
use borromean_rings.Base.Decimal.{strip}
use borromean_rings.Base.{
  ℕ, Bool, nat_eq, String, Option, none, some, List, [], ◌∷◌, ◌==◌, map, if◌then◌else◌,
}
use borromean_rings.Json.{
  ℤ, pos, negsuc, Value, null, bool, int, real, str, array, object, Items, Fields, no_members,
  member, get, to_list, text_or,
}

abbrev pub lane_fast : String
lane_fast = "fast"

abbrev pub exit_not_recorded : ℤ
exit_not_recorded = negsuc 0

-- `_int_or`: a Boolean is another constructor, so it is no exit code.
unfoldable pub int_or : Option Value → ℤ → ℤ
int_or (some (int n)) default = n
int_or v default = default

pub record Evidence : Type 0 where
  pub check : String
  pub command : String
  pub exit_code : ℤ
  pub log : String
  pub log_bytes : ℤ
  pub content_sha256 : String
  pub lane : String

unfoldable pub evidence_to_dict : Evidence → Value
evidence_to_dict e = object (
    member "check" (str e.check) (
      member "command" (str e.command) (
        member "exit_code" (int e.exit_code) (
          member "log" (str e.log) (
            member "log_bytes" (int e.log_bytes) (
              member "content_sha256" (str e.content_sha256)
                (member "lane" (str e.lane) no_members)))))))

abbrev get_size : Option ℕ → ℕ
get_size none = 0
get_size (some n) = n

unfoldable pub log_size : (String → Option ℕ) → String → ℕ
log_size size log_path = if log_path == "" then 0 else get_size (size log_path)

unfoldable pub evidence_from_receipt :
    (Value → String) → (String → Option ℕ) → Fields → String → Evidence
unfolding int_or log_size
evidence_from_receipt repr size receipt lane =
    let log = text_or repr "" (get "log" receipt) in
    record {
      check = text_or repr "" (get "check" receipt);
      command = text_or repr "" (get "command" receipt);
      exit_code = int_or (get "exit_code" receipt) exit_not_recorded;
      log = log;
      log_bytes = pos (log_size size log);
      content_sha256 = text_or repr "" (get "content_sha256" receipt);
      lane = lane;
    }

-- `_parse_one` on a mapping whose "check" is `check`.
abbrev parse_fields : (Value → String) → Fields → Option Value → Option Evidence
parse_fields repr raw (some (str check)) = some (record {
  check = check;
  command = text_or repr "" (get "command" raw);
  exit_code = int_or (get "exit_code" raw) exit_not_recorded;
  log = text_or repr "" (get "log" raw);
  log_bytes = int_or (get "log_bytes" raw) (pos 0);
  content_sha256 = text_or repr "" (get "content_sha256" raw);
  lane = text_or repr lane_fast (get "lane" raw);
})
parse_fields repr raw check = none

unfoldable pub parse_one : (Value → String) → Value → Option Evidence
unfolding int_or
parse_one repr (object raw) = parse_fields repr raw (get "check" raw)
parse_one repr raw = none

-- `[item for item in parsed if item is not None]`
abbrev pub present {ℓ κ} : {A : Type ℓ} {B : Type κ} → (A → Option B) → List A → List B
present f [] = []
present f (x ∷ xs) = elim (f x) [ none ↦ present f xs | some y ↦ y ∷ present f xs ]

unfoldable pub parse_evidence : (Value → String) → Option Value → List Evidence
unfolding parse_one
parse_evidence repr (some (array items)) = present (parse_one repr) (to_list items)
parse_evidence repr raw = []

pub record Intent : Type 0 where
  pub branch : String
  pub head_sha : String
  pub input_digest : String
  pub generator : String

unfoldable pub intent_to_dict : Intent → Value
intent_to_dict i = object (
    member "branch" (str i.branch) (
      member "head_sha" (str i.head_sha) (
        member "input_digest" (str i.input_digest)
          (member "generator" (str i.generator) no_members))))

-- Only an actual string is a generator.
unfoldable pub generator_or : Option Value → String
generator_or (some (str s)) = s
generator_or v = ""

unfoldable pub parse_intent : (Value → String) → Option Value → Intent
unfolding generator_or
parse_intent repr (some (object raw)) = record {
  branch = text_or repr "" (get "branch" raw);
  head_sha = text_or repr "" (get "head_sha" raw);
  input_digest = text_or repr "" (get "input_digest" raw);
  generator = generator_or (get "generator" raw);
}
parse_intent repr raw = record { branch = ""; head_sha = ""; input_digest = ""; generator = "" }

-- `is_heavy`
unfoldable pub is_heavy : Evidence → Bool
is_heavy e = e.lane == "heavy"

-- `_git_query`, of what running git gives: the return code and the output, `none` for an OSError.
abbrev git_output : Option (ℤ × String) → String
git_output none = ""
git_output (some (pos n, stdout)) = if nat_eq n 0 then strip stdout else ""
git_output (some (negsuc n, stdout)) = ""

-- `run` is git at the project root.
unfoldable pub read_intent : (List String → Option (ℤ × String)) → String → String → Intent
read_intent run input_digest generator = record {
  branch = git_output (run ("rev-parse" ∷ "--abbrev-ref" ∷ "HEAD" ∷ []));
  head_sha = git_output (run ("rev-parse" ∷ "HEAD" ∷ []));
  input_digest = input_digest;
  generator = generator;
}
