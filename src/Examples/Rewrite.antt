-- ===== src/Examples/Rewrite.antt =====
-- The rewrite contract at concrete transcripts.
use borromean_rings.Base.{
  ℕ, suc, String, ◌≡◌, refl, true, false, Option, none, some, List, [], ◌∷◌, ◌++◌, map, length,
}
use borromean_rings.Base.Text.{is_break, is_space}
use borromean_rings.Json.{Fields, member, no_members, item, no_items, Value, str, object, array}
use borromean_rings.Gate.History.{Codec}
use borromean_rings.Rewrite.{Tools, RewriteVerdict}
use borromean_rings.Rewrite.Assess.{assess_reply}
use borromean_rings.Rewrite.Transcript.{Entry, is_human_entry, find_last_exchange}
use borromean_rings.Rewrite.Transcript.Last.{IsLast, find_last_exchange-IsLast}
use borromean_rings.Rewrite.Tail.{read_bytes, split_feeds}
use borromean_rings.Rewrite.Tail.Numbered.{read_bytes-numbered}
use borromean_rings.Rewrite.Recorded.{World, bytes, unknown, to_record}

abbrev tools : Tools
tools = record { digest = λ s. s; lower = λ s. s }

abbrev a_reply : String
a_reply = "\n  **Reading this as: fix the gate.**\nDone."

honoured_test : (assess_reply tools "fix it" a_reply (some 4)).status ≡ "honoured"
unfolding assess_reply is_space is_break
honoured_test = refl

-- The record of a payload that is no JSON.
abbrev a_record : Fields
a_record = to_record (unknown "hook payload unreadable" "") "" "2026-01-01T00:00:00Z"

abbrev load_one : List ℕ → Option Value
load_one [] = none
load_one (c ∷ line) = some (object a_record)

abbrev codec : Codec
codec = record {
  dumps = λ v. 123 ∷ 125 ∷ [];
  loads = load_one;
  repr = λ v. "";
  raises = λ line. false;
}

abbrev message : Value → Value
message content = object (member "content" content no_members)

abbrev human : String → Fields
human prompt = member "type" (str "user") (
    member "origin" (object (member "kind" (str "human") no_members))
      (member "message" (message (str prompt)) no_members))

abbrev assistant : String → Fields
assistant reply = member "type" (str "assistant") (
    member "message"
      (message (
        array (
          item (object (member "type" (str "text") (member "text" (str reply) no_members)))
            no_items)))
      no_members)

abbrev entries : List Entry
entries =
    (3, human "first")
    ∷ (4, assistant "one")
    ∷ (5, human "second")
    ∷ (7, assistant "  ")
    ∷ (8, assistant "two")
    ∷ (9, assistant "three")
    ∷ []

last_test :
    find_last_exchange codec false entries
    ≡ some (record { prompt = "second"; reply = some "two"; reply_line = some 8 })
unfolding find_last_exchange is_human_entry is_space
last_test = refl

find_last_exchange-IsLast_example : IsLast codec entries (find_last_exchange codec false entries)
find_last_exchange-IsLast_example = find_last_exchange-IsLast codec entries

abbrev three_lines : List ℕ
three_lines = 97 ∷ 10 ∷ 98 ∷ 98 ∷ 10 ∷ 99 ∷ []

tail_test : read_bytes (λ s. s) 3 three_lines ≡ (3, (99 ∷ []) ∷ [])
unfolding read_bytes
tail_test = refl

map-same : (ls : List (List ℕ)) → ls ≡ map (λ s. s) ls
map-same [] = refl
map-same (l ∷ ls) = cc (map-same ls)

read_bytes-numbered_example :
    (before : List (List ℕ)) × (map (λ s. s) (split_feeds three_lines)
      ≡ before ++ (read_bytes (λ s. s) 3 three_lines).1)
    × (suc (length before) ≡ (read_bytes (λ s. s) 3 three_lines).0)
read_bytes-numbered_example =
    read_bytes-numbered (λ s. s) (λ data_. map-same (split_feeds data_)) 3 three_lines

abbrev world : World
world = record {
  tools = tools;
  codec = codec;
  decode = λ s. s;
  file_at =
      λ path. record { is_jsonl = true; is_inside = true; is_link = false; content = bytes [] };
}

abbrev a_time : String
a_time = "2026-01-01T00:00:00Z"

abbrev a_verdict : RewriteVerdict
a_verdict = unknown "hook payload unreadable" ""
