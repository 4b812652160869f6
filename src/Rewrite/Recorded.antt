-- ===== src/Rewrite/Recorded.antt =====
-- The verdict on a transcript and its record (rewrite_contract.py: evaluate_transcript,
-- record_from_payload).
pub mod Counted
use Prim.Native.String.{◌++◌ as text_append}
use borromean_rings.Base.{
  ℕ, String, Bool, true, false, not, Option, none, some, List, [], ◌∷◌, ◌++◌, ◌==◌, if◌then◌else◌,
}
use borromean_rings.Base.Text.{is_blank}
use borromean_rings.Base.{any, ◌&&◌}
use borromean_rings.Json.{
  pos, Fields, member, no_members, Value, str, real, object, array, int, bool, null, get, text_or,
}
use borromean_rings.Gate.History.{Codec, existing}
use borromean_rings.Rewrite.{Tools, RewriteVerdict}
use borromean_rings.Rewrite.Assess.{hash_of, assess_reply}
use borromean_rings.Rewrite.Transcript.{Exchange, parse_entries, find_last_exchange}
use borromean_rings.Rewrite.Tail.{default_tail_bytes, read_bytes}

-- The bytes of a file, or the text of the OSError on reading it.
pub data Content : Type 0 where
  unreadable : String → Content
  bytes : List ℕ → Content

-- What the file system says of a path: its suffix, whether it resolves to somewhere under the
-- allowed root, whether it is a link, and its content.
pub record TranscriptFile : Type 0 where
  pub is_jsonl : Bool
  pub is_inside : Bool
  pub is_link : Bool
  pub content : Content

-- The text of TranscriptRefused.
unfoldable pub refusal : TranscriptFile → Option String
refusal file =
    if not file.is_jsonl
    then some "not a .jsonl transcript"
    else if not file.is_inside
    then some "transcript path outside the substrate's transcript directory"
    else if file.is_link
    then some "transcript path is a symlink"
    else none

abbrev pub unknown : String → String → RewriteVerdict
unknown reason digest = record {
  status = "unknown";
  reason = reason;
  prompt_hash = digest;
  line = none;
  matched = "";
}

abbrev judge_reply : Tools → String → Option String → Option ℕ → RewriteVerdict
judge_reply tools prompt none line =
    unknown "no assistant text after the last prompt" (hash_of tools prompt)
judge_reply tools prompt (some reply) line = assess_reply tools prompt reply line

abbrev pub judge_exchange : Tools → Option Exchange → RewriteVerdict
judge_exchange tools none = unknown "no human prompt found in the transcript tail" ""
judge_exchange tools (some x) = judge_reply tools x.prompt x.reply x.reply_line

-- What is taken from the outside: the digests, the JSON codec, the decoding of UTF-8 with errors
-- replaced, and the files at paths.
pub record World : Type 0 where
  pub tools : Tools
  pub codec : Codec
  pub decode : List ℕ → List ℕ
  pub file_at : String → TranscriptFile

-- `none` is the ValueError of `json.loads`, which nothing catches.
abbrev pub judge_lines : World → ℕ × List (List ℕ) → Option RewriteVerdict
judge_lines world (first, lines) =
    if any (λ line. not (is_blank line) && world.codec.raises line) lines
    then none
    else some (
        judge_exchange world.tools
          (find_last_exchange world.codec false (parse_entries world.codec lines first)))

abbrev pub judge_content : World → ℕ → Content → Option RewriteVerdict
judge_content world max_bytes (unreadable e) =
    some (unknown (text_append "transcript unreadable: " e) "")
judge_content world max_bytes (bytes data_) =
    judge_lines world (read_bytes world.decode max_bytes data_)

abbrev pub unless_refused : Option String → Option RewriteVerdict → Option RewriteVerdict
unless_refused (some reason) v = some (unknown reason "")
unless_refused none v = v

unfoldable pub evaluate_transcript : World → ℕ → TranscriptFile → Option RewriteVerdict
unfolding refusal find_last_exchange parse_entries read_bytes assess_reply
evaluate_transcript world max_bytes file =
    unless_refused (refusal file) (judge_content world max_bytes file.content)

-- `verdict.honoured`
unfoldable pub honoured : RewriteVerdict → Value
honoured v =
    if v.status == "honoured"
    then bool true
    else if v.status == "not_honoured"
    then bool false
    else null

abbrev line_value : Option ℕ → Value
line_value none = null
line_value (some n) = int (pos n)

unfoldable pub to_record : RewriteVerdict → String → String → Fields
unfolding honoured
to_record v session_id timestamp = member "ts" (str timestamp) (
    member "session_id" (str session_id) (
      member "prompt_hash" (str v.prompt_hash) (
        member "honoured" (honoured v) (
          member "status" (str v.status) (
            member "reason" (str v.reason)
              (member "line" (line_value v.line) (member "matched" (str v.matched) no_members)))))))

-- `append_rewrite_record`: the file after the record was appended.
unfoldable pub append_rewrite_record : Codec → Option (List ℕ) → Fields → Option (List ℕ)
append_rewrite_record codec file rec = some (existing file ++ (codec.dumps (object rec) ++ 10 ∷ []))

-- `record`, at a time.
abbrev pub record_at : Codec → Option (List ℕ) → RewriteVerdict → String → String → Option (List ℕ)
record_at codec file v session now = append_rewrite_record codec file (to_record v session now)

abbrev at_path : World → Option Value → Option RewriteVerdict
at_path world (some (str path)) =
    if path == ""
    then some (unknown "no transcript_path in the hook payload" "")
    else evaluate_transcript world default_tail_bytes (world.file_at path)
at_path world v = some (unknown "no transcript_path in the hook payload" "")

abbrev for_session : String → Option RewriteVerdict → Option (RewriteVerdict × String)
for_session session none = none
for_session session (some v) = some (v, session)

-- The verdict on a payload and the session that it names.
abbrev pub judge_payload : World → Option Value → Option (RewriteVerdict × String)
judge_payload world none = some (unknown "hook payload unreadable" "", "")
judge_payload world (some null) = some (unknown "hook payload unreadable" "", "")
judge_payload world (some (object fields)) =
    for_session (text_or world.codec.repr "" (get "session_id" fields))
      (at_path world (get "transcript_path" fields))
judge_payload world (some v) = some (unknown "no transcript_path in the hook payload" "", "")

abbrev recorded_as :
    World
    → Option (List ℕ)
    → String
    → Option (RewriteVerdict × String)
    → Option (RewriteVerdict × Option (List ℕ))
recorded_as world file now none = none
recorded_as world file now (some (v, session)) = some (v, record_at world.codec file v session now)

-- `none` is a ValueError of `json.loads`: nothing is recorded.
unfoldable pub record_from_payload :
    World → Option (List ℕ) → List ℕ → String → Option (RewriteVerdict × Option (List ℕ))
unfolding evaluate_transcript to_record append_rewrite_record
record_from_payload world file payload now =
    if world.codec.raises payload
    then none
    else recorded_as world file now (judge_payload world (world.codec.loads payload))
