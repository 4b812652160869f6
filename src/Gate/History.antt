-- ===== src/Gate/History.antt =====
-- The append-only gate history: `append_history` and `read_history` (verdict.py). The file is its
-- text. `json.dumps` and `json.loads` are the parameter `Codec`; `none` is a `JSONDecodeError`, and
-- `raises` says where an integer has more than 4300 digits, so that `json.loads` raises a plain
-- ValueError. Files of records are modelled where no line does that.
pub mod Growth
use borromean_rings.Base.{ℕ, Bool, Option, none, some, List, [], ◌∷◌, ◌++◌, if◌then◌else◌}
use borromean_rings.Base.Text.{splitlines, is_blank}
use borromean_rings.Json.{Value}
use borromean_rings.Json
use borromean_rings.Base.{String}
use borromean_rings.Gate.Evidence.{present}
use borromean_rings.Gate.Verdict.{Verdict, to_dict, parse}

pub record Codec : Type 0 where
  pub dumps : Value → List ℕ
  pub loads : List ℕ → Option Value
  pub raises : List ℕ → Bool
  pub repr : Value → String

abbrev parse_loaded : (Value → String) → Option Value → Option Verdict
parse_loaded repr none = none
parse_loaded repr (some v) = parse repr v

-- The body of the loop of `read_history`: `none` is `continue`, or a line that is no verdict.
unfoldable pub read_line : Codec → List ℕ → Option Verdict
read_line codec line = if is_blank line then none else parse_loaded codec.repr (codec.loads line)

-- A missing file reads as the empty history.
unfoldable pub read_history : Codec → Option (List ℕ) → List Verdict
read_history codec none = []
read_history codec (some raw) = present (read_line codec) (splitlines raw)

abbrev pub existing : Option (List ℕ) → List ℕ
existing none = []
existing (some raw) = raw

-- The file after `fh.write(json.dumps(verdict.to_dict()) + "\n")` in mode "a".
unfoldable pub append_history : Codec → Option (List ℕ) → Verdict → Option (List ℕ)
append_history codec file v = some (existing file ++ (codec.dumps (to_dict v) ++ 10 ∷ []))

unfoldable pub append_all : Codec → Option (List ℕ) → List Verdict → Option (List ℕ)
append_all codec file [] = file
append_all codec file (v ∷ vs) = append_all codec (append_history codec file v) vs
