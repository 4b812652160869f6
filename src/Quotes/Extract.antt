-- ===== src/Quotes/Extract.antt =====
-- The quotations of a document, line by line (quotes.py).
pub mod Blocks
use Prim.Native.Char.{code}
use Prim.Native.String
use borromean_rings.Base.{
  ℕ, suc, String, Bool, true, false, not, ◌||◌, Option, none, some, List, [], ◌∷◌, ◌++◌, ◌==◌,
  nat_eq, if◌then◌else◌,
}
use borromean_rings.Base.Decimal.{strip, strip_left}
use borromean_rings.Words.{join_with, starts_with, split_lines}
use borromean_rings.Quotes.{Reader, Groups, Marker, Quotation}

abbrev last_line_of : Reader → ℕ → Option String → ℕ
last_line_of reader start none = start
last_line_of reader start (some digits) = reader.int_of digits

abbrev marker_of : Reader → Option Groups → Option Marker
marker_of reader none = none
marker_of reader (some groups) =
    let start = reader.int_of groups.start_digits in
    some (record {
      path = groups.span_path;
      first = start;
      last = last_line_of reader start groups.end_digits;
    })

unfoldable pub parse_marker : Reader → String → Option Marker
parse_marker reader line = marker_of reader (reader.match_marker line)

-- What stands after the mark of a blockquote line, and after one space.
abbrev after_space : String → String
after_space String.[] = ""
after_space (String.◌∷◌ c s) = if nat_eq (code c) 32 then s else String.◌∷◌ c s

unfoldable pub blockquote_text : String → String
blockquote_text String.[] = ""
blockquote_text (String.◌∷◌ c body) = after_space body

-- The state while extracting: the open blockquote with the line it began at.
pub record Scan : Type 0 where
  pub found : List Quotation
  pub pending : Option (List String)
  pub pending_line : ℕ
  pub closed : Bool
  pub in_fence : Bool

unfoldable pub is_fence : String → Bool
unfolding strip_left starts_with
is_fence line = starts_with (strip_left line) "```" || starts_with (strip_left line) "~~~"

-- A blockquote line goes on with the open blockquote, unless a blank line has closed it.
abbrev pub quote_from : Scan → ℕ → String → Option (List String) → Bool → Scan
quote_from s number line none closed = record s {
  pending = some (blockquote_text line ∷ []);
  pending_line = number;
  closed = false;
}
quote_from s number line (some lines) true = record s {
  pending = some (blockquote_text line ∷ []);
  pending_line = number;
  closed = false;
}
quote_from s number line (some lines) false = record s {
  pending = some (lines ++ blockquote_text line ∷ []);
}

abbrev pub quote_line : Scan → ℕ → String → Scan
quote_line s number line = quote_from s number line s.pending s.closed

abbrev pub marker_from : Scan → ℕ → Marker → Option (List String) → Scan
marker_from s number marker none = record s {
  found = s.found ++ record { at = number; text = none; marker = marker } ∷ [];
}
marker_from s number marker (some lines) = record s {
  found =
      s.found
      ++ record { at = s.pending_line; text = some (join_with "\n" lines); marker = marker } ∷ [];
  pending = none;
}

abbrev is_open : Option (List String) → Bool
is_open none = false
is_open (some lines) = true

abbrev pub plain_line : Scan → String → Scan
plain_line s line =
    if not (strip line == "")
    then record s { pending = none }
    else if is_open s.pending
    then record s { closed = true }
    else s

abbrev pub text_line : Scan → ℕ → String → Option Marker → Scan
text_line s number line none = plain_line s line
text_line s number line (some marker) = marker_from s number marker s.pending

module _ (reader : Reader) where
  unfoldable pub feed : Scan → ℕ → String → Scan
  unfolding is_fence starts_with parse_marker blockquote_text join_with strip
  feed s number line =
      if is_fence line
      then record s { in_fence = not s.in_fence; pending = none }
      else if s.in_fence
      then s
      else if starts_with line ">"
      then quote_line s number line
      else text_line s number line (parse_marker reader line)

  unfoldable pub feed_all : Scan → ℕ → List String → Scan
  unfolding feed
  feed_all s number [] = s
  feed_all s number (line ∷ lines) = feed_all (feed s number line) (suc number) lines

  abbrev initial : Scan
  initial = record {
    found = [];
    pending = none;
    pending_line = 0;
    closed = false;
    in_fence = false;
  }

  unfoldable pub extract : String → List Quotation
  unfolding feed_all split_lines
  extract document = (feed_all initial 1 (split_lines document)).found
