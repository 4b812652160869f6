-- ===== src/Gate/Tally.antt =====
-- The tallies of the append-only contract records (verdict.py). `none` of a tally is the TypeError
-- that the lookup of a list or an object among the statuses raises.
pub mod Totals
pub mod Appended
use borromean_rings.Base.{
  ℕ, suc, ◌+◌, String, Bool, true, false, Option, none, some, List, [], ◌∷◌, ◌++◌, ◌==◌,
  if◌then◌else◌,
}
use borromean_rings.Base.Text.{splitlines, is_blank}
use borromean_rings.Json.{Value, str, real, object, array, int, bool, null, Fields, get}
use borromean_rings.Gate.History.{Codec, existing}

pub record RewriteTally : Type 0 where
  pub honoured : ℕ
  pub not_honoured : ℕ
  pub exempt : ℕ
  pub unknown : ℕ

unfoldable pub rewrite_judged : RewriteTally → ℕ
rewrite_judged t = t.honoured + t.not_honoured

unfoldable pub rewrite_total : RewriteTally → ℕ
unfolding rewrite_judged
rewrite_total t = rewrite_judged t + t.exempt + t.unknown

-- `counts[status if status in counts else "unknown"] += 1` over REWRITE_STATUSES
unfoldable pub count_rewrite : String → RewriteTally → RewriteTally
count_rewrite status t =
    if status == "honoured"
    then record t { honoured = suc t.honoured }
    else if status == "not_honoured"
    then record t { not_honoured = suc t.not_honoured }
    else if status == "exempt"
    then record t { exempt = suc t.exempt }
    else record t { unknown = suc t.unknown }

pub record SelfReportTally : Type 0 where
  pub present : ℕ
  pub absent : ℕ
  pub malformed : ℕ
  pub graded : ℕ
  pub exempt : ℕ
  pub unknown : ℕ

unfoldable pub self_report_judged : SelfReportTally → ℕ
self_report_judged t = t.present + t.absent + t.malformed + t.graded

unfoldable pub self_report_total : SelfReportTally → ℕ
unfolding self_report_judged
self_report_total t = self_report_judged t + t.exempt + t.unknown

-- The same over SELF_REPORT_STATUSES
unfoldable pub count_self_report : String → SelfReportTally → SelfReportTally
count_self_report status t =
    if status == "present"
    then record t { present = suc t.present }
    else if status == "absent"
    then record t { absent = suc t.absent }
    else if status == "malformed"
    then record t { malformed = suc t.malformed }
    else if status == "graded"
    then record t { graded = suc t.graded }
    else if status == "exempt"
    then record t { exempt = suc t.exempt }
    else record t { unknown = suc t.unknown }

module _ {T : Type 0} (count : String → T → T) where
  -- The status of a record: a list or an object cannot be looked up.
  abbrev pub count_status : Option Value → T → Option T
  count_status (some (str s)) t = some (count s t)
  count_status (some (array items)) t = none
  count_status (some (object fields)) t = none
  count_status status t = some (count "unknown" t)

  abbrev pub count_loaded : Option Value → T → Option T
  count_loaded (some (object data_)) t = count_status (get "status" data_) t
  count_loaded data_ t = some t

  unfoldable pub count_line : Codec → List ℕ → T → Option T
  count_line codec line t = if is_blank line then some t else count_loaded (codec.loads line) t

  unfoldable pub count_lines : Codec → List (List ℕ) → T → Option T
  count_lines codec [] t = some t
  count_lines codec (line ∷ lines) t = elim (count_line codec line t) [
    | none ↦ none
    | some t' ↦ count_lines codec lines t'
  ]

  unfoldable pub count_statuses : Codec → T → Option (List ℕ) → Option T
  count_statuses codec zeros none = some zeros
  count_statuses codec zeros (some raw) = count_lines codec (splitlines raw) zeros

abbrev pub no_rewrites : RewriteTally
no_rewrites = record { honoured = 0; not_honoured = 0; exempt = 0; unknown = 0 }

abbrev pub no_self_reports : SelfReportTally
no_self_reports = record {
  present = 0;
  absent = 0;
  malformed = 0;
  graded = 0;
  exempt = 0;
  unknown = 0;
}

unfoldable pub read_rewrite_tally : Codec → Option (List ℕ) → Option RewriteTally
read_rewrite_tally codec file = count_statuses count_rewrite codec no_rewrites file

unfoldable pub read_self_report_tally : Codec → Option (List ℕ) → Option SelfReportTally
read_self_report_tally codec file = count_statuses count_self_report codec no_self_reports file

-- The file after `fh.write(json.dumps(dict(rec)) + "\n")` in mode "a".
unfoldable pub append_self_report_record : Codec → Option (List ℕ) → Fields → Option (List ℕ)
append_self_report_record codec file rec =
    some (existing file ++ (codec.dumps (object rec) ++ 10 ∷ []))
