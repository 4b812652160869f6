-- ===== src/Receipts.antt =====
-- Check receipts and the integrity of a run's directory of them (receipts.py). A receipt is a decoded
-- JSON object; `canonical` is `json.dumps` with sorted keys and no spaces, `repr` is `str` of a
-- value that is no string.
pub mod Intact
pub mod Sealed
use Prim.Native.String.{◌++◌ as text_append, compare}
use Prim.Native.Nat.{Ordering}
use borromean_rings.Base.{
  String, Bool, true, false, not, ◌&&◌, Option, none, some, List, [], ◌∷◌, ◌==◌, if◌then◌else◌,
}
use borromean_rings.Json.{Value, str, object, Fields, member, no_members, get, text_or}
use borromean_rings.StateHome.{FilePath, components}

pub record Tools : Type 0 where
  pub canonical : Fields → String
  pub sha256 : String → String
  pub repr : Value → String

-- What a path names: whether it exists, and its text, `none` where reading raises.
pub record Disk : Type 0 where
  pub exists : String → Bool
  pub text : String → Option String

abbrev pub content_hash_field : String
content_hash_field = "content_sha256"

-- `{k: v for k, v in receipt.items() if k != CONTENT_HASH_FIELD}`
unfoldable pub without_hash : Fields → Fields
without_hash no_members = no_members
without_hash (member k v rest) =
    let core = without_hash rest in if k == content_hash_field then core else member k v core

-- `out[key] = value` for a key that is new.
unfoldable pub add_last : Fields → String → Value → Fields
add_last no_members key value = member key value no_members
add_last (member k v rest) key value = member k v (add_last rest key value)

unfoldable pub compute_content_hash : Tools → Fields → String → String
compute_content_hash tools receipt log_text = tools.sha256 (
    text_append (tools.canonical (without_hash receipt)) (text_append "\n" (tools.sha256 log_text)))

unfoldable pub finalize_receipt : Tools → Fields → String → Fields
finalize_receipt tools receipt log_text =
    let out = without_hash receipt in
    add_last out content_hash_field (str (compute_content_hash tools out log_text))

-- A stored value that is no text, or an empty one, matches no digest.
abbrev pub matches : Option Value → String → Bool
matches (some (str stored)) digest = not (stored == "") && stored == digest
matches stored digest = false

unfoldable pub verify_receipt : Tools → Fields → String → Bool
verify_receipt tools receipt log_text =
    matches (get content_hash_field receipt) (compute_content_hash tools receipt log_text)

-- `Path(recorded).name`
abbrev last_part : FilePath → String
last_part [] = ""
last_part (part ∷ []) = part
last_part (part ∷ next ∷ parts) = last_part (next ∷ parts)

-- `Path(receipt_dir) / name`
abbrev beside : String → String → String
beside receipt_dir name =
    if name == "" then receipt_dir else text_append receipt_dir (text_append "/" name)

unfoldable pub resolve_log_path : Disk → String → String → Option String
unfolding components
resolve_log_path disk receipt_dir recorded =
    let near = beside receipt_dir (last_part (components recorded)) in
    if recorded == ""
    then none
    else if disk.exists recorded
    then some recorded
    else if disk.exists near
    then some near
    else none

-- `str(receipt.get("log", ""))`
abbrev pub recorded_log : Tools → Fields → String
recorded_log tools receipt = text_or tools.repr "" (get "log" receipt)

abbrev text_at : Disk → Option String → String
text_at disk none = ""
text_at disk (some path) = elim (disk.text path) [ none ↦ "" | some s ↦ s ]

unfoldable pub read_log_text : Tools → Disk → String → Fields → String
read_log_text tools disk receipt_dir receipt =
    text_at disk (resolve_log_path disk receipt_dir (recorded_log tools receipt))

-- `"\n".join(hashes)` and `sorted(hashes)`
unfoldable pub join_lines : List String → String
join_lines [] = ""
join_lines (s ∷ []) = s
join_lines (s ∷ t ∷ ss) = text_append s (text_append "\n" (join_lines (t ∷ ss)))

abbrev text_lt : String → String → Bool
text_lt a b = elim (compare a b) [ Ordering.lt ↦ true | _ ↦ false ]

unfoldable pub insert_text : String → List String → List String
insert_text s [] = s ∷ []
insert_text s (t ∷ ts) = let rest = insert_text s ts in if text_lt t s then t ∷ rest else s ∷ t ∷ ts

unfoldable pub sorted_texts : List String → List String
sorted_texts [] = []
sorted_texts (s ∷ ss) = insert_text s (sorted_texts ss)

unfoldable pub run_digest : Tools → List String → String
unfolding join_lines sorted_texts insert_text
run_digest tools content_hashes = tools.sha256 (join_lines (sorted_texts content_hashes))

pub record IntegrityReport : Type 0 where
  pub ok : Bool
  pub tampered : List String
  pub unhashed : List String
  pub missing_log : List String
  pub digest : String

-- The judgement on one file: its list, or its hash, or that the loop raises on it.
pub data Judged : Type 0 where
  is_tampered is_unhashed is_missing_log raises : Judged
  is_intact : String → Judged

-- A file and what it holds: `none` where it cannot be read or is no JSON. One that is not UTF-8 has no
-- representation.
abbrev pub File : Type 0
File = String × Option Value

abbrev pub sealed_by : Bool → Option Value → Judged
sealed_by true (some (str hash)) = is_intact hash
sealed_by verified hash = is_tampered

abbrev pub judge_hash : Tools → Fields → String → Option Value → Judged
judge_hash tools receipt log_text none = is_unhashed
judge_hash tools receipt log_text (some hash) =
    sealed_by (verify_receipt tools receipt log_text) (some hash)

abbrev pub judge_text : Tools → Fields → Option String → Judged
judge_text tools receipt none = raises
judge_text tools receipt (some log_text) =
    judge_hash tools receipt log_text (get content_hash_field receipt)

abbrev pub judge_log : Tools → Disk → Fields → Option String → Judged
judge_log tools disk receipt none = is_missing_log
judge_log tools disk receipt (some path) = judge_text tools receipt (disk.text path)

unfoldable pub judge_file : Tools → Disk → String → Option Value → Judged
judge_file tools disk receipt_dir none = is_tampered
judge_file tools disk receipt_dir (some (object receipt)) =
    judge_log tools disk receipt (resolve_log_path disk receipt_dir (recorded_log tools receipt))
judge_file tools disk receipt_dir (some v) = raises

-- The four lists that the loop fills.
pub record Lists : Type 0 where
  pub tampered : List String
  pub unhashed : List String
  pub missing_log : List String
  pub intact_hashes : List String

abbrev pub file_under : String → Judged → Option Lists → Option Lists
file_under stem judged none = none
file_under stem is_tampered (some l) = some (record l { tampered = stem ∷ l.tampered })
file_under stem is_unhashed (some l) = some (record l { unhashed = stem ∷ l.unhashed })
file_under stem is_missing_log (some l) = some (record l { missing_log = stem ∷ l.missing_log })
file_under stem (is_intact hash) (some l) =
    some (record l { intact_hashes = hash ∷ l.intact_hashes })
file_under stem raises (some l) = none

abbrev pub empty_lists : Lists
empty_lists = record { tampered = []; unhashed = []; missing_log = []; intact_hashes = [] }

-- The files come in the order of their paths; `none` is that the loop raised.
unfoldable pub verify_files : Tools → Disk → String → List File → Option Lists
verify_files tools disk receipt_dir [] = some empty_lists
verify_files tools disk receipt_dir ((stem, value) ∷ files) =
    file_under stem (judge_file tools disk receipt_dir value)
      (verify_files tools disk receipt_dir files)

abbrev pub is_empty : List String → Bool
is_empty [] = true
is_empty (s ∷ ss) = false

abbrev pub the_report : Tools → Lists → IntegrityReport
the_report tools l = record {
  ok = is_empty l.tampered && (is_empty l.unhashed && is_empty l.missing_log);
  tampered = l.tampered;
  unhashed = l.unhashed;
  missing_log = l.missing_log;
  digest = run_digest tools l.intact_hashes;
}

abbrev pub report_of : Tools → Option Lists → Option IntegrityReport
report_of tools none = none
report_of tools (some l) = some (the_report tools l)

unfoldable pub verify_dir : Tools → Disk → String → List File → Option IntegrityReport
verify_dir tools disk receipt_dir files =
    report_of tools (verify_files tools disk receipt_dir files)
