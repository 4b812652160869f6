-- ===== src/Rewrite/Transcript/Last.antt =====
-- Which exchange is found in a transcript.
use borromean_rings.Base.{
  ℕ, String, ◌≡◌, refl, sym, ◌∙◌, ap, ◌⊎◌, inl, inr, false, Option, none, some, List, [], ◌∷◌, ◌++◌,
  All, Option-cases,
}
use borromean_rings.Gate.History.{Codec}
use borromean_rings.Rewrite.Transcript.{
  Entry, human_prompt, assistant_text, Exchange, here, or_here, last_prompt, replies_in,
  exchange_of, exchange_from, find_last_exchange,
}

abbrev pub NoPrompt : Codec → Entry → Type 0
NoPrompt codec e = human_prompt codec e.1 ≡ none

abbrev pub NoReply : Entry → Type 0
NoReply e = assistant_text e.1 ≡ none

-- The reply and its line are those of the first entry that has assistant text, or missing where
-- none has.
abbrev pub Answers : List Entry → Exchange → Type 0
Answers after x =
    (All NoReply after × (x.reply ≡ none) × (x.reply_line ≡ none))
    ⊎ ((quiet : List Entry) × (e : Entry) × (later : List Entry) × (text : String) × (after
          ≡ quiet ++ e ∷ later)
        × All NoReply quiet
        × (assistant_text e.1 ≡ some text)
        × (x.reply ≡ some text)
        × (x.reply_line ≡ some e.0))

-- The exchange is that of the last entry with a human prompt; there is none where no entry has one.
abbrev pub IsLast : Codec → List Entry → Option Exchange → Type 0
IsLast codec entries none = All (NoPrompt codec) entries
IsLast codec entries (some x) =
    (before : List Entry) × (e : Entry) × (after : List Entry) × (entries ≡ before ++ e ∷ after)
    × (human_prompt codec e.1 ≡ some x.prompt)
    × All (NoPrompt codec) after
    × Answers after x

abbrev FirstReply : List Entry → List (ℕ × String) → Type 0
FirstReply after [] = All NoReply after
FirstReply after ((n, text) ∷ replies) =
    (quiet : List Entry) × (e : Entry) × (later : List Entry) × (after ≡ quiet ++ e ∷ later)
    × All NoReply quiet
    × (assistant_text e.1 ≡ some text)
    × (n ≡ e.0)

grown :
    (e : Entry) (after : List Entry) (replies : List (ℕ × String))
    → NoReply e
    → FirstReply after replies
    → FirstReply (e ∷ after) replies
grown e after [] h a = (h, a)
grown e after (r ∷ replies) h (quiet, d, later, split, q, t, l) =
    (e ∷ quiet, d, later, ap (◌∷◌ e) split, (h, q), t, l)

replies_in-FirstReply : (after : List Entry) → FirstReply after (replies_in after)
unfolding replies_in
replies_in-FirstReply [] = tt
replies_in-FirstReply ((n, entry) ∷ after) = elim (Option-cases (assistant_text entry)) [
  | inl e ↦
      rw (e, replies_in) (grown (n, entry) after (replies_in after) e (replies_in-FirstReply after))
  | inr (text, e) ↦ rw (e, replies_in) ([], (n, entry), after, refl, tt, e, refl)
]

exchange-Answers :
    (prompt : String) (after : List Entry) (replies : List (ℕ × String))
    → FirstReply after replies
    → Answers after (exchange_of false prompt replies)
exchange-Answers prompt after [] a = inl (a, refl, refl)
exchange-Answers prompt after ((n, text) ∷ replies) (quiet, e, later, split, q, t, l) =
    inr (quiet, e, later, text, split, q, t, refl, ap some l)

abbrev LastPrompt : Codec → List Entry → Option (String × List Entry) → Type 0
LastPrompt codec entries none = All (NoPrompt codec) entries
LastPrompt codec entries (some (prompt, after)) =
    (before : List Entry) × (e : Entry) × (entries ≡ before ++ e ∷ after)
    × (human_prompt codec e.1 ≡ some prompt)
    × All (NoPrompt codec) after

at_head :
    (codec : Codec) (e : Entry) (entries : List Entry) (h : Option String)
    (last : Option (String × List Entry))
    → human_prompt codec e.1 ≡ h
    → LastPrompt codec entries last
    → LastPrompt codec (e ∷ entries) (or_here last (here h entries))
at_head codec e entries none none q l = (q, l)
at_head codec e entries (some prompt) none q l = ([], e, refl, q, l)
at_head codec e entries h (some (prompt, after)) q (before, d, split, p, l) =
    (e ∷ before, d, ap (◌∷◌ e) split, p, l)

last_prompt-LastPrompt :
    (codec : Codec) (entries : List Entry) → LastPrompt codec entries (last_prompt codec entries)
unfolding last_prompt
last_prompt-LastPrompt codec [] = tt
last_prompt-LastPrompt codec ((n, entry) ∷ entries) =
    at_head codec (n, entry) entries (human_prompt codec entry) (last_prompt codec entries) refl
      (last_prompt-LastPrompt codec entries)

exchange-prompt :
    (prompt : String) (replies : List (ℕ × String))
    → (exchange_of false prompt replies).prompt ≡ prompt
exchange-prompt prompt [] = refl
exchange-prompt prompt (r ∷ replies) = refl

exchange-IsLast :
    (codec : Codec) (entries : List Entry) (last : Option (String × List Entry))
    → LastPrompt codec entries last
    → IsLast codec entries (exchange_from false last)
exchange-IsLast codec entries none l = l
exchange-IsLast codec entries (some (prompt, after)) (before, e, split, p, l) = (
  before,
  e,
  after,
  split,
  p ∙ ap some (sym (exchange-prompt prompt (replies_in after))),
  l,
  exchange-Answers prompt after (replies_in after) (replies_in-FirstReply after),
)

-- What is found is the last human prompt, with the first assistant text after it; nothing is found
-- exactly where no entry is a human prompt.
pub find_last_exchange-IsLast :
    (codec : Codec) (entries : List Entry)
    → IsLast codec entries (find_last_exchange codec false entries)
unfolding find_last_exchange
find_last_exchange-IsLast codec entries =
    exchange-IsLast codec entries (last_prompt codec entries) (last_prompt-LastPrompt codec entries)
