-- ===== src/Retry/Count.antt =====
-- The recorded count: its text, its file, and the decision on it (retry_state.py).
pub mod Printed
use Prim.Native.String
use borromean_rings.Base.{
  ℕ, String, Bool, true, false, Option, none, some, List, [], ◌∷◌, ltb, leb, if◌then◌else◌,
}
use borromean_rings.Base.Decimal.{strip, from_digits, show}
use borromean_rings.StateHome.{
  FilePath, Reason, Except, ok, unavailable, value_error, cannot_read, corrupt_count, ◌>>=◌,
}

-- `int` refuses a numeral of more than 4300 digits with a `ValueError`.
abbrev pub int_max_str_digits : ℕ
int_max_str_digits = 4300

abbrev pub count_chars : String → ℕ
count_chars String.[] = 0
count_chars (String.◌∷◌ c s) = Prim.Native.Nat.suc (count_chars s)

-- `int(s)` of a run of ASCII digits.
abbrev pub to_int : String → Option ℕ → Except (Option ℕ)
to_int s none = ok none
to_int s (some n) = if leb (count_chars s) int_max_str_digits then ok (some n) else value_error

abbrev pub parse_stripped : String → Except (Option ℕ)
parse_stripped String.[] = ok none
parse_stripped (String.◌∷◌ c s) = to_int (String.◌∷◌ c s) (from_digits 0 (String.◌∷◌ c s))

unfoldable pub parse_count : String → Except (Option ℕ)
parse_count s = parse_stripped (strip s)

pub data Decision : Type 0 where
  retry escalate : Decision

unfoldable pub decide : ℕ → ℕ → Decision
decide attempts cap = if ltb attempts cap then retry else escalate

-- What a path names: no file, a file that cannot be read, one that is not UTF-8, or a text.
pub data File : Type 0 where
  missing unreadable undecodable : File
  content : String → File

abbrev checked : FilePath → Option ℕ → Except ℕ
checked path none = unavailable (corrupt_count path)
checked path (some n) = ok n

unfoldable pub read_counter : FilePath → File → Except ℕ
unfolding parse_count
read_counter path missing = ok 0
read_counter path unreadable = unavailable (cannot_read path)
read_counter path undecodable = value_error
read_counter path (content s) = do value ← parse_count s; checked path value
