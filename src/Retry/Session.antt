-- ===== src/Retry/Session.antt =====
-- The name of a session's counter file (retry_state.py).
pub mod Names
use Prim.Native.Char.{Char, code}
use Prim.Native.String
use borromean_rings.Base.{
  ℕ, String, Bool, true, false, ◌&&◌, ◌||◌, Option, none, some, nat_eq, leb, if◌then◌else◌, ◌≡◌,
  ◌≢◌, refl, arith,
}
use borromean_rings.StateHome.{take_chars, digest_chars}
use borromean_rings.Retry.Count.{count_chars}

-- `[A-Za-z0-9_-]`
abbrev pub is_word : ℕ → Bool
is_word c =
    leb 65 c && leb c 90
    || leb 97 c && leb c 122
    || leb 48 c && leb c 57
    || nat_eq c 95
    || nat_eq c 45

abbrev pub all_words : String → Bool
all_words String.[] = true
all_words (String.◌∷◌ c s) = is_word (code c) && all_words s

-- `_VERBATIM_ID.fullmatch`
unfoldable pub is_verbatim : String → Bool
is_verbatim s = all_words s && leb 1 (count_chars s) && leb (count_chars s) 128

-- `"h." + digest`
abbrev pub hashed : String → String
hashed digest = String.◌∷◌ "h" (String.◌∷◌ "." digest)

unfoldable pub session_filename : (String → String) → String → String
session_filename sha256 session_id =
    if is_verbatim session_id
    then session_id
    else hashed (take_chars digest_chars (sha256 session_id))

unfoldable pub legacy_name : String → Option String
legacy_name session_id = if is_verbatim session_id then some session_id else none
