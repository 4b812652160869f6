-- ===== src/Gate/Latest/Kept.antt =====
-- That the verdict read back is the one that was written.
use borromean_rings.Base.{ℕ, ◌≡◌, some, List, [], ◌∷◌, ◌++◌}
use borromean_rings.Json.{Value}
use borromean_rings.Gate.Verdict.{Verdict, to_dict}
use borromean_rings.Gate.Verdict.Persisted.{parse-to_dict}
use borromean_rings.Gate.History.{Codec}
use borromean_rings.Gate.Latest.{write_last_verdict, read_last_verdict}

-- The latest verdict is read back as it was written, every field of it, for JSON that loads the
-- indented text with a line feed after it as the object it was made from.
pub read_last_verdict-write_last_verdict :
    (codec : Codec) (pretty : Value → List ℕ) (v : Verdict)
    → codec.loads (pretty (to_dict v) ++ 10 ∷ []) ≡ some (to_dict v)
    → read_last_verdict codec (write_last_verdict pretty v) ≡ some v
unfolding read_last_verdict write_last_verdict
read_last_verdict-write_last_verdict codec pretty v h = rw h (parse-to_dict codec.repr v)
