-- ===== src/Retry/Count/Printed.antt =====
-- What a written count reads back as.
use Prim.Native.Char.{Char}
use borromean_rings.Base.{ℕ, String, ◌≡◌, some, leb, if◌then◌else◌, true}
use borromean_rings.Base.Decimal.{show, from_digits}
use borromean_rings.Base.Decimal.RoundTrip.{
  from_digits-show, strip-digits, AllDigits-show, show-cons,
}
use borromean_rings.StateHome.{FilePath, ok, value_error}
use borromean_rings.Retry.Count.{
  parse_count, parse_stripped, to_int, count_chars, int_max_str_digits, read_counter, content,
}

parse_stripped-cons :
    (t s : String) (c : Char) → t ≡ String.◌∷◌ c s → parse_stripped t ≡ to_int t (from_digits 0 t)
parse_stripped-cons t s c e = rw e

pub parse_count-show :
    (n : ℕ)
    → parse_count (show n)
      ≡ (if leb (count_chars (show n)) int_max_str_digits then ok (some n) else value_error)
unfolding parse_count
parse_count-show n =
    let (d, s, e) = show-cons n in
    rw (strip-digits (show n) (AllDigits-show n))
      (rw (parse_stripped-cons (show n) s d e) (rw from_digits-show))

-- A count that was short enough to be written is read back.
pub read_counter-show :
    (path : FilePath) (n : ℕ)
    → leb (count_chars (show n)) int_max_str_digits ≡ true
    → read_counter path (content (show n)) ≡ ok n
unfolding read_counter
read_counter-show path n h = rw parse_count-show (rw h)
