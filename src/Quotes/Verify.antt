-- ===== src/Quotes/Verify.antt =====
-- The verdict on each quotation of a document (quotes.py). The resolver passes on a state of its
-- own, so that its calls can be observed.
pub mod Cached
pub mod Entries
pub mod Sound
use borromean_rings.Base.{
  map, ℕ, zero, suc, ◌-◌, String, Bool, true, false, not, ◌||◌, Option, none, some, List, [], ◌∷◌,
  ◌++◌, ◌==◌, elem, length, any, ltb, if◌then◌else◌,
}
use borromean_rings.Words.{join_with, starts_with, split_char, split_lines}
use borromean_rings.Quotes.{Reader, Marker, Quotation}
use borromean_rings.Quotes.Match.{matches}
use borromean_rings.Quotes.Extract.{extract}

-- What a resolver answers: a text, that there is no such file, `OutsideProject`, or another
-- exception.
pub data Answer : Type 0 where
  contents : String → Answer
  no_file : Answer
  refused : Answer
  raises : Answer

-- A status with its detail; the difference of a drifted quotation is made of the span.
pub data Status : Type 0 where
  verbatim : Status
  drifted : List String → Status
  missing : String → Status
  out_of_range : ℕ → Status
  orphan : Status

pub record QuoteResult : Type 0 where
  pub at : ℕ
  pub marker : Marker
  pub status : Status

unfoldable pub escapes_root : String → Bool
unfolding starts_with split_char
escapes_root path = starts_with path "/" || elem ".." (split_char 47 path)

-- `lines[first - 1 : last]`
unfoldable pub take_lines : ℕ → List String → List String
take_lines n [] = []
take_lines zero (line ∷ lines) = []
take_lines (suc n) (line ∷ lines) = line ∷ take_lines n lines

unfoldable pub skip_lines : ℕ → List String → List String
skip_lines n [] = []
skip_lines zero (line ∷ lines) = line ∷ lines
skip_lines (suc n) (line ∷ lines) = skip_lines n lines

abbrev pub span_of : Marker → List String → List String
span_of marker lines = skip_lines (marker.first - 1) (take_lines marker.last lines)

abbrev pub is_out_of_range : Marker → List String → Bool
is_out_of_range marker lines =
    ltb marker.first 1 || ltb marker.last marker.first || ltb (length lines) marker.last

unfoldable pub judge_lines : Reader → String → Marker → List String → Status
unfolding take_lines skip_lines matches join_with
judge_lines reader text marker lines =
    let span = span_of marker lines in
    if is_out_of_range marker lines
    then out_of_range (length lines)
    else if matches reader text (join_with "\n" span)
    then verbatim
    else drifted span

abbrev pub judge : Reader → String → Marker → Option String → Status
judge reader text marker none = missing "no such file"
judge reader text marker (some source) = judge_lines reader text marker (split_lines source)

-- The texts that were resolved, and the paths that were refused.
pub record Cache : Type 0 where
  pub texts : List (String × Option String)
  pub outside : List String

unfoldable pub lookup : String → List (String × Option String) → Option (Option String)
lookup path [] = none
lookup path ((p, text) ∷ entries) =
    let rest = lookup path entries in if p == path then some text else rest

abbrev pub is_cached : String → Cache → Bool
is_cached path cache = any (λ e. e.0 == path) cache.texts || elem path cache.outside

abbrev or_absent : Option (Option String) → Option String
or_absent none = none
or_absent (some text) = text

-- `cache.get(path)`
abbrev pub cached : String → Cache → Option String
cached path cache = or_absent (lookup path cache.texts)

abbrev pub keep_text : String → Option String → Cache → Cache
keep_text path text cache = record cache { texts = cache.texts ++ (path, text) ∷ [] }

abbrev pub keep_refusal : String → Cache → Cache
keep_refusal path cache = record cache { outside = path ∷ cache.outside }

-- The cache after a call; `none` is that the exception propagates.
abbrev pub store : String → Answer → Cache → Option Cache
store path (contents text) cache = some (keep_text path (some text) cache)
store path no_file cache = some (keep_text path none cache)
store path refused cache = some (keep_refusal path cache)
store path raises cache = none

abbrev pub result_at : Quotation → Status → QuoteResult
result_at q status = record { at = q.at; marker = q.marker; status = status }

-- The results so far are behind the loop; `none` is an exception.
abbrev pub add_result : QuoteResult → Option (List QuoteResult) → Option (List QuoteResult)
add_result result none = none
add_result result (some results) = some (result ∷ results)

module _ {ℓ} {S : Type ℓ} (reader : Reader) (resolve_source : String → S → Answer × S) where
  unfoldable pub load : String → Cache → S → Option Cache × S
  unfolding lookup
  load path cache s =
      let (answer, s') = resolve_source path s in
      if is_cached path cache then (some cache, s) else (store path answer cache, s')

  abbrev pub status_in : Quotation → String → Cache → Status
  status_in q text cache =
      if elem q.marker.path cache.outside
      then missing "outside the project"
      else judge reader text q.marker (cached q.marker.path cache)

  -- One turn of the loop: the status and the cache after it; `none` is an exception.
  abbrev pub loaded_status : Quotation → String → Option Cache × S → Option (Status × Cache) × S
  loaded_status q text (none, s) = (none, s)
  loaded_status q text (some cache, s) = (some (status_in q text cache, cache), s)

  unfoldable pub verify_one : Quotation → Option String → Cache → S → Option (Status × Cache) × S
  unfolding escapes_root load judge_lines split_lines lookup
  verify_one q none cache s = (some (orphan, cache), s)
  verify_one q (some text) cache s =
      let at_root = some (missing "path must be repo-relative (no leading '/', no '..')", cache) in
      if escapes_root q.marker.path
      then (at_root, s)
      else loaded_status q text (load q.marker.path cache s)

  unfoldable pub verify_from : List Quotation → Cache → S → Option (List QuoteResult) × S
  unfolding verify_one
  verify_from [] cache s = (some [], s)
  verify_from (q ∷ qs) cache s =
      let (outcome, s') = verify_one q q.text cache s in
      elim outcome [
        | none ↦ (none, s')
        | some (status, cache') ↦
            let (results, s'') = verify_from qs cache' s' in
            (add_result (result_at q status) results, s'')
      ]

  unfoldable pub verify : String → S → Option (List QuoteResult) × S
  unfolding verify_from extract
  verify document s = verify_from (extract reader document) (record { texts = []; outside = [] }) s

abbrev pub is_verbatim : Status → Bool
is_verbatim verbatim = true
is_verbatim (drifted span) = false
is_verbatim (missing detail) = false
is_verbatim (out_of_range lines) = false
is_verbatim orphan = false

-- `QuoteReport.ok`
unfoldable pub all_verbatim : List QuoteResult → Bool
all_verbatim [] = true
all_verbatim (result ∷ results) = if is_verbatim result.status then all_verbatim results else false

-- `QuoteReport.counts`, in the order of `STATUSES`.
abbrev has_status : Status → String
has_status verbatim = "verbatim"
has_status (drifted span) = "drifted"
has_status (missing detail) = "missing"
has_status (out_of_range lines) = "out_of_range"
has_status orphan = "orphan"

unfoldable count_of : String → List QuoteResult → ℕ
count_of status [] = 0
count_of status (result ∷ results) =
    let rest = count_of status results in
    if has_status result.status == status then suc rest else rest

abbrev statuses : List String
statuses = "verbatim" ∷ "drifted" ∷ "missing" ∷ "out_of_range" ∷ "orphan" ∷ []

unfoldable pub counts : List QuoteResult → List (String × ℕ)
unfolding count_of
counts results = map (λ status. (status, count_of status results)) statuses
