-- ===== src/Gate/Tally/Appended.antt =====
-- How a tally changes when a contract record is appended to its file (verdict.py).
use borromean_rings.Base.{
  some-inj, ℕ, ◌≡◌, refl, sym, ◌∙◌, ap, false, String, Option, none, some, List, [], ◌∷◌, ◌++◌, All,
  Option-cases, inl, inr,
}
use borromean_rings.Base.Text.{splitlines, split_from, is_break, is_blank}
use borromean_rings.Base.Text.Lines.{IsClosed, splitlines-append}
use borromean_rings.Json.{Fields, object, str, get}
use borromean_rings.Gate.History.{Codec, existing}
use borromean_rings.Gate.Tally.{
  SelfReportTally, count_self_report, count_line, count_lines, count_statuses,
  read_self_report_tally, append_self_report_record,
}

-- What `json` documents of a record: its dump is one line, is not blank, and loads back.
pub record IsWritten (codec : Codec) (rec : Fields) : Type 0 where
  pub one_line : All (λ c. is_break c ≡ false) (codec.dumps (object rec))
  pub not_blank : is_blank (codec.dumps (object rec)) ≡ false
  pub loads_back : codec.loads (codec.dumps (object rec)) ≡ some (object rec)

module _ {T : Type 0} (count : String → T → T) (codec : Codec) where
  statuses-existing :
      (zeros : T) (file : Option (List ℕ))
      → count_statuses count codec zeros file
        ≡ count_lines count codec (splitlines (existing file)) zeros
  unfolding count_statuses count_lines splitlines split_from
  statuses-existing zeros none = refl
  statuses-existing zeros (some raw) = refl

  count_lines-last :
      (lines : List (List ℕ)) (line : List ℕ) (t u : T)
      → count_lines count codec lines t ≡ some u
      → count_lines count codec (lines ++ line ∷ []) t ≡ count_lines count codec (line ∷ []) u
  unfolding count_lines
  count_lines-last [] line t u h = ap (count_lines count codec (line ∷ [])) (some-inj t u h)
  count_lines-last (l ∷ lines) line t u h = elim (Option-cases (count_line count codec l t)) [
    | inl e ↦ cc (rw (e, count_lines) at h)
    | inr (v, e) ↦ rw (e, count_lines) (count_lines-last lines line v u (rw (e, count_lines) at h))
  ]

  line_counted :
      (rec : Fields) (status : String) (t : T)
      → IsWritten codec rec
      → get "status" rec ≡ some (str status)
      → count_lines count codec (codec.dumps (object rec) ∷ []) t ≡ some (count status t)
  unfolding count_lines count_line
  line_counted rec status t w h = rw (w.not_blank, w.loads_back, h, count_lines) refl

  -- A record appended to a file that can be tallied counts once, under its status.
  pub record_counted :
      (zeros : T) (file : Option (List ℕ)) (rec : Fields) (status : String) (t : T)
      → IsClosed (existing file)
      → IsWritten codec rec
      → get "status" rec ≡ some (str status)
      → count_statuses count codec zeros file ≡ some t
      → count_statuses count codec zeros
          (some (existing file ++ (codec.dumps (object rec) ++ 10 ∷ [])))
        ≡ some (count status t)
  record_counted zeros file rec status t closed w g h =
      let line = codec.dumps (object rec) in
      statuses-existing zeros (some (existing file ++ (line ++ 10 ∷ [])))
      ∙ ap (λ ls. count_lines count codec ls zeros)
          (splitlines-append (existing file) line closed w.one_line)
      ∙ count_lines-last (splitlines (existing file)) line zeros t
          (sym (statuses-existing zeros file) ∙ h)
      ∙ line_counted rec status t w g

-- A self-report record that is appended to its file adds exactly one to the tally, under its
-- status. The file so far ends with a line feed or is empty and can be tallied, the status of the
-- record is a text, and JSON writes the record as one line that is not blank and loads back.
pub append_self_report_record-counted :
    (codec : Codec) (file : Option (List ℕ)) (rec : Fields) (status : String) (t : SelfReportTally)
    → IsClosed (existing file)
    → IsWritten codec rec
    → get "status" rec ≡ some (str status)
    → read_self_report_tally codec file ≡ some t
    → read_self_report_tally codec (append_self_report_record codec file rec)
      ≡ some (count_self_report status t)
unfolding append_self_report_record read_self_report_tally
append_self_report_record-counted codec file rec status t closed w g h =
    record_counted count_self_report codec _ file rec status t closed w g h
