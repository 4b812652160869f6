-- ===== src/Rewrite/Transcript.antt =====
-- The entries of a transcript, and its last exchange (rewrite_contract.py: find_last_exchange).
pub mod Last
use Prim.Native.String.{◌++◌ as text_append}
use borromean_rings.Base.{
  ℕ, suc, ◌+◌, String, Bool, true, false, not, ◌||◌, ◌&&◌, Option, none, some, List, [], ◌∷◌, ◌==◌,
  nat_eq, if◌then◌else◌,
}
use borromean_rings.Base.Text.{is_blank}
use borromean_rings.Base.Decimal.{strip}
use borromean_rings.Json.{
  truthy, ℤ, pos, negsuc, Fields, member, no_members, Items, item, no_items, Value, str, real,
  object, array, int, bool, null, get, to_list, text_or,
}
use borromean_rings.Gate.History.{Codec}

-- A line number and the decoded object on the line.
abbrev pub Entry : Type 0
Entry = ℕ × Fields

abbrev add_entry : ℕ → Option Value → List Entry → List Entry
add_entry n (some (object fields)) entries = (n, fields) ∷ entries
add_entry n data_ entries = entries

unfoldable pub parse_entries : Codec → List (List ℕ) → ℕ → List Entry
parse_entries codec [] n = []
parse_entries codec (line ∷ lines) n =
    let rest = parse_entries codec lines (suc n) in
    if is_blank line then rest else add_entry n (codec.loads line) rest

-- `isinstance(v, Mapping)` and the member of it, else `None`.
abbrev field_of : String → Option Value → Option Value
field_of key (some (object fields)) = get key fields
field_of key v = none

abbrev is_str : String → Option Value → Bool
is_str s (some (str t)) = t == s
is_str s v = false

unfoldable pub content_of : Fields → Option Value
content_of entry = field_of "content" (get "message" entry)

unfoldable pub is_human_entry : Fields → Bool
is_human_entry entry =
    is_str "user" (get "type" entry)
    && (not (truthy (get "isMeta" entry)) && is_str "human" (field_of "kind" (get "origin" entry)))

abbrev is_text_block : Value → Bool
is_text_block v = is_str "text" (field_of "type" (some v))

-- The texts of blocks that are all text blocks.
unfoldable pub block_texts : Codec → List Value → Option (List String)
block_texts codec [] = some []
block_texts codec (v ∷ vs) = elim (block_texts codec vs) [
  | none ↦ none
  | some texts ↦
      if is_text_block v
      then some (text_or codec.repr "" (field_of "text" (some v)) ∷ texts)
      else none
]

-- `" ".join(texts)`
abbrev joined : List String → String
joined [] = ""
joined (t ∷ []) = t
joined (t ∷ u ∷ texts) = text_append t (text_append " " (joined (u ∷ texts)))

abbrev joined_or_none : Option (List String) → Option String
joined_or_none none = none
joined_or_none (some texts) = some (joined texts)

unfoldable pub prompt_text : Codec → Option Value → Option String
unfolding block_texts
prompt_text codec (some (str s)) = some s
prompt_text codec (some (array items)) = joined_or_none (block_texts codec (to_list items))
prompt_text codec content = none

unfoldable pub human_prompt : Codec → Fields → Option String
unfolding prompt_text content_of
human_prompt codec entry =
    if is_human_entry entry then prompt_text codec (content_of entry) else none

abbrev filled : Option Value → Option String → Option String
filled (some (str s)) later = if strip s == "" then later else some s
filled v later = later

-- The first text block that is not blank.
unfoldable pub first_text : List Value → Option String
unfolding strip
first_text [] = none
first_text (v ∷ vs) =
    let rest = first_text vs in
    if is_text_block v then filled (field_of "text" (some v)) rest else rest

abbrev text_among : Option Value → Option String
text_among (some (array items)) = first_text (to_list items)
text_among content = none

unfoldable pub assistant_text : Fields → Option String
unfolding first_text content_of
assistant_text entry =
    if is_str "assistant" (get "type" entry) && not (truthy (get "isSidechain" entry))
    then text_among (content_of entry)
    else none

pub record Exchange : Type 0 where
  pub prompt : String
  pub reply : Option String
  pub reply_line : Option ℕ

abbrev pub here : Option String → List Entry → Option (String × List Entry)
here none entries = none
here (some prompt) entries = some (prompt, entries)

abbrev pub or_here :
    Option (String × List Entry) → Option (String × List Entry) → Option (String × List Entry)
or_here none earlier = earlier
or_here (some last) earlier = some last

-- The last human prompt, with the entries after it.
unfoldable pub last_prompt : Codec → List Entry → Option (String × List Entry)
unfolding human_prompt
last_prompt codec [] = none
last_prompt codec ((n, entry) ∷ entries) =
    or_here (last_prompt codec entries) (here (human_prompt codec entry) entries)

abbrev pub add_reply : ℕ → Option String → List (ℕ × String) → List (ℕ × String)
add_reply n none replies = replies
add_reply n (some text) replies = (n, text) ∷ replies

unfoldable pub replies_in : List Entry → List (ℕ × String)
unfolding assistant_text
replies_in [] = []
replies_in ((n, entry) ∷ entries) = add_reply n (assistant_text entry) (replies_in entries)

abbrev last_of : ℕ × String → List (ℕ × String) → ℕ × String
last_of r [] = r
last_of r (q ∷ replies) = last_of q replies

abbrev answered : String → ℕ × String → Exchange
answered prompt (n, text) = record { prompt = prompt; reply = some text; reply_line = some n }

abbrev pub exchange_of : Bool → String → List (ℕ × String) → Exchange
exchange_of final prompt [] = record { prompt = prompt; reply = none; reply_line = none }
exchange_of final prompt (r ∷ replies) = answered prompt (if final then last_of r replies else r)

abbrev pub exchange_from : Bool → Option (String × List Entry) → Option Exchange
exchange_from final none = none
exchange_from final (some (prompt, entries)) = some (exchange_of final prompt (replies_in entries))

unfoldable pub find_last_exchange : Codec → Bool → List Entry → Option Exchange
unfolding last_prompt replies_in
find_last_exchange codec final entries = exchange_from final (last_prompt codec entries)
