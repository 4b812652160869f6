-- ===== src/Gate/Latest.antt =====
-- The latest verdict: `write_last_verdict` and `read_last_verdict` (verdict.py). `pretty` is
-- `json.dumps(…, indent=2)`; the file is replaced as a whole.
pub mod Kept
use borromean_rings.Base.{ℕ, Option, none, some, List, [], ◌∷◌, ◌++◌}
use borromean_rings.Json.{Value}
use borromean_rings.Gate.Verdict.{Verdict, to_dict, parse}
use borromean_rings.Gate.History.{Codec}

unfoldable pub write_last_verdict : (Value → List ℕ) → Verdict → Option (List ℕ)
write_last_verdict pretty v = some (pretty (to_dict v) ++ 10 ∷ [])

abbrev pub parse_data : Codec → Option Value → Option Verdict
parse_data codec none = none
parse_data codec (some data_) = parse codec.repr data_

-- A file that is not there, or cannot be read, is `none`.
unfoldable pub read_last_verdict : Codec → Option (List ℕ) → Option Verdict
read_last_verdict codec none = none
read_last_verdict codec (some raw) = parse_data codec (codec.loads raw)
