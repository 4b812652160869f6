-- ===== src/Gate/Tally/Totals.antt =====
-- That a tally counts each record once.
use borromean_rings.Base.{
  some-inj, ℕ, suc, ◌+◌, ◌≡◌, refl, sym, ◌∙◌, ap, String, Bool, true, false, Option, none, some,
  List, [], ◌∷◌, keep, length, arith, Option-cases, Bool-cases, inl, inr, if◌then◌else◌,
}
use borromean_rings.Base.Text.{splitlines, is_blank}
use borromean_rings.Json.{Value, str, real, object, array, int, bool, null, get}
use borromean_rings.Gate.History.{Codec}
use borromean_rings.Gate.Tally.{
  RewriteTally, rewrite_judged, rewrite_total, count_rewrite, SelfReportTally, self_report_judged,
  self_report_total, count_self_report, count_status, count_loaded, count_line, count_lines,
  count_statuses, no_rewrites, no_self_reports, read_rewrite_tally, read_self_report_tally,
}

abbrev is_object : Option Value → Bool
is_object (some (object data_)) = true
is_object data_ = false

-- A line that holds a well-formed record: it is not blank, and is the JSON text of an object.
abbrev pub is_record : Codec → List ℕ → Bool
is_record codec line = if is_blank line then false else is_object (codec.loads line)

module _ {T : Type 0} (count : String → T → T) where
  blank_line :
      (codec : Codec) (line : List ℕ) (t : T)
      → is_blank line ≡ true
      → count_line count codec line t ≡ some t
  unfolding count_line
  blank_line codec line t e = rw e refl

  full_line :
      (codec : Codec) (line : List ℕ) (t : T)
      → is_blank line ≡ false
      → count_line count codec line t ≡ count_loaded count (codec.loads line) t
  unfolding count_line
  full_line codec line t e = rw e refl

  stopped :
      (codec : Codec) (line : List ℕ) (lines : List (List ℕ)) (t : T)
      → count_line count codec line t ≡ none
      → count_lines count codec (line ∷ lines) t ≡ none
  unfolding count_lines
  stopped codec line lines t e = rw (e, count_lines) refl

  stepped :
      (codec : Codec) (line : List ℕ) (lines : List (List ℕ)) (t u : T)
      → count_line count codec line t ≡ some u
      → count_lines count codec (line ∷ lines) t ≡ count_lines count codec lines u
  unfolding count_lines
  stepped codec line lines t u e = rw (e, count_lines) refl

module _ {T : Type 0} (count : String → T → T) (total : T → ℕ)
    (counts_one : (s : String) (t : T) → total (count s t) ≡ suc (total t)) where
  one : (s : String) (t t' : T) → some (count s t) ≡ some t' → total t' ≡ suc (total t)
  one s t t' h = sym (ap total (some-inj (count s t) t' h)) ∙ counts_one s t

  status-total :
      (o : Option Value) (t t' : T) → count_status count o t ≡ some t' → total t' ≡ suc (total t)
  status-total none t t' h = one "unknown" t t' h
  status-total (some (str s)) t t' h = one s t t' h
  status-total (some (real s)) t t' h = one "unknown" t t' h
  status-total (some (object fs)) t t' h = cc
  status-total (some (array vs)) t t' h = cc
  status-total (some (int n)) t t' h = one "unknown" t t' h
  status-total (some (bool b)) t t' h = one "unknown" t t' h
  status-total (some null) t t' h = one "unknown" t t' h

  unmoved : (t t' : T) → some t ≡ some t' → total t' ≡ total t + 0
  unmoved t t' h = let e = ap total (some-inj t t' h) in omega (arith, e)

  loaded-total :
      (o : Option Value) (t t' : T)
      → count_loaded count o t ≡ some t'
      → total t' ≡ total t + (if is_object o then 1 else 0)
  loaded-total none t t' h = unmoved t t' h
  loaded-total (some (str s)) t t' h = unmoved t t' h
  loaded-total (some (real s)) t t' h = unmoved t t' h
  loaded-total (some (object fs)) t t' h =
      let e = status-total (get "status" fs) t t' h in omega (arith, e)
  loaded-total (some (array vs)) t t' h = unmoved t t' h
  loaded-total (some (int n)) t t' h = unmoved t t' h
  loaded-total (some (bool b)) t t' h = unmoved t t' h
  loaded-total (some null) t t' h = unmoved t t' h

  line-total :
      (codec : Codec) (line : List ℕ) (t t' : T)
      → count_line count codec line t ≡ some t'
      → total t' ≡ total t + (if is_record codec line then 1 else 0)
  unfolding count_line
  line-total codec line t t' h = elim (Bool-cases (is_blank line)) [
    | inl e ↦ rw e (unmoved t t' (sym (blank_line count codec line t e) ∙ h))
    | inr e ↦ rw e (loaded-total (codec.loads line) t t' (sym (full_line count codec line t e) ∙ h))
  ]

  lines-total :
      (codec : Codec) (lines : List (List ℕ)) (t t' : T)
      → count_lines count codec lines t ≡ some t'
      → total t' ≡ total t + length (keep (is_record codec) lines)
  unfolding count_lines
  lines-total codec [] t t' h = unmoved t t' h
  lines-total codec (line ∷ lines) t t' h = elim (Option-cases (count_line count codec line t)) [
    | inl e ↦ cc (stopped count codec line lines t e, h)
    | inr (u, e) ↦
        let f = line-total codec line t u e in
        let g = lines-total codec lines u t' (sym (stepped count codec line lines t u e) ∙ h) in
        ground (arith, f, g)
  ]

count_rewrite-one :
    (s : String) (t : RewriteTally) → rewrite_total (count_rewrite s t) ≡ suc (rewrite_total t)
unfolding count_rewrite rewrite_total rewrite_judged
count_rewrite-one s t = ground arith

count_self_report-one :
    (s : String) (t : SelfReportTally)
    → self_report_total (count_self_report s t) ≡ suc (self_report_total t)
unfolding count_self_report self_report_total self_report_judged
count_self_report-one s t = ground arith

-- Where the tally of the rewrite contract is made, the judged, exempt and unknown records are
-- together as many as the lines that hold a well-formed record: none is lost, none counted twice.
pub read_rewrite_tally-total :
    (codec : Codec) (raw : List ℕ) (tally : RewriteTally)
    → read_rewrite_tally codec (some raw) ≡ some tally
    → rewrite_total tally ≡ length (keep (is_record codec) (splitlines raw))
unfolding read_rewrite_tally count_statuses rewrite_total rewrite_judged
read_rewrite_tally-total codec raw tally h =
    let e =
      lines-total count_rewrite rewrite_total count_rewrite-one codec (splitlines raw) no_rewrites
        tally h in
    omega (arith, e)

-- Where the tally of the self-report contract is made, its total is the number of the lines that
-- hold a well-formed record.
pub read_self_report_tally-total :
    (codec : Codec) (raw : List ℕ) (tally : SelfReportTally)
    → read_self_report_tally codec (some raw) ≡ some tally
    → self_report_total tally ≡ length (keep (is_record codec) (splitlines raw))
unfolding read_self_report_tally count_statuses self_report_total self_report_judged
read_self_report_tally-total codec raw tally h =
    let e =
      lines-total count_self_report self_report_total count_self_report-one codec (splitlines raw)
        no_self_reports tally h in
    omega (arith, e)
