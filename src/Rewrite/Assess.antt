-- ===== src/Rewrite/Assess.antt =====
-- The judgement on one prompt and its reply (rewrite_contract.py: assess_reply).
pub mod Judged
use Prim.Native.Char.{Char, code}
use Prim.Native.String
use borromean_rings.Base.{
  ℕ, String, Bool, true, false, ◌||◌, Option, none, some, List, [], ◌∷◌, ◌==◌, elem, any, nat_eq,
  if◌then◌else◌,
}
use borromean_rings.Base.Decimal.{strip}
use borromean_rings.StateHome.{take_chars}
use borromean_rings.Words.{starts_with, split_lines}
use borromean_rings.Rewrite.{Tools, RewriteVerdict}

abbrev pub marker : String
marker = "Reading this as:"

abbrev pub matched_limit : ℕ
matched_limit = 200

abbrev pub trivial_prompts : List String
trivial_prompts =
    "y" ∷ "n" ∷ "yes" ∷ "no" ∷ "ok" ∷ "okay" ∷ "k" ∷ "go" ∷ "go ahead" ∷ "continue" ∷ "proceed"
    ∷ "sure" ∷ "yes please" ∷ "yes, please" ∷ "do it" ∷ "yep" ∷ "yeah" ∷ "nope" ∷ []

abbrev pub is_in : List ℕ → Char → Bool
is_in codes c = any (λ k. nat_eq (code c) k) codes

-- `.!?`
abbrev strip_punctuation : List ℕ
strip_punctuation = 46 ∷ 33 ∷ 63 ∷ []

-- The marks `*_#>`, the grave accent, the tilde, the space and the tab.
abbrev decoration : List ℕ
decoration = 42 ∷ 95 ∷ 35 ∷ 62 ∷ 96 ∷ 126 ∷ 32 ∷ 9 ∷ []

abbrev keep_unless : List ℕ → Char → String → String
keep_unless codes c String.[] = if is_in codes c then "" else String.◌∷◌ c ""
keep_unless codes c (String.◌∷◌ d s) = String.◌∷◌ c (String.◌∷◌ d s)

-- `s.rstrip(chars)` and `s.lstrip(chars)`
unfoldable pub strip_end : List ℕ → String → String
strip_end codes String.[] = ""
strip_end codes (String.◌∷◌ c s) = keep_unless codes c (strip_end codes s)

unfoldable pub strip_start : List ℕ → String → String
strip_start codes String.[] = ""
strip_start codes (String.◌∷◌ c s) =
    let rest = strip_start codes s in if is_in codes c then rest else String.◌∷◌ c s

unfoldable pub is_trivial : Tools → String → Bool
unfolding strip strip_end
is_trivial tools prompt =
    let bare = strip (strip_end strip_punctuation (tools.lower (strip prompt))) in
    bare == "" || elem bare trivial_prompts

unfoldable pub first_opening : List String → String
unfolding strip strip_start
first_opening [] = ""
first_opening (line ∷ lines) =
    let rest = first_opening lines in
    let stripped = strip line in if stripped == "" then rest else strip_start decoration stripped

unfoldable pub opening_line : String → String
unfolding split_lines first_opening
opening_line reply = first_opening (split_lines reply)

-- The source encodes the prompt in UTF-8 first, which raises for a lone surrogate.
abbrev pub hash_of : Tools → String → String
hash_of tools prompt = take_chars 16 (tools.digest prompt)

abbrev judged : String → String → Tools → String → Option ℕ → String → RewriteVerdict
judged status reason tools prompt line matched = record {
  status = status;
  reason = reason;
  prompt_hash = hash_of tools prompt;
  line = line;
  matched = matched;
}

unfoldable pub assess_reply : Tools → String → String → Option ℕ → RewriteVerdict
unfolding is_trivial opening_line starts_with
assess_reply tools prompt reply line =
    let opening = take_chars matched_limit (opening_line reply) in
    if is_trivial tools prompt
    then judged "exempt" "trivial prompt (exempt by the directive's own wording)" tools prompt line
        opening
    else if opening == ""
    then judged "not_honoured" "reply had no text" tools prompt line ""
    else if starts_with (tools.lower opening) (tools.lower marker)
    then judged "honoured" "reply opened with the marker" tools prompt line opening
    else judged "not_honoured" "reply opened with something else" tools prompt line opening
