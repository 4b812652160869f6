-- ===== src/Quotes/Extract/Blocks.antt =====
-- What extraction makes of a blockquote with its marker, and of a fenced block.
use borromean_rings.Base.{
  ℕ, suc, ◌+◌, String, ◌≡◌, refl, sym, ◌∙◌, Bool, true, false, not, Option, none, some, List, [],
  ◌∷◌, ◌++◌, ◌==◌, All, length, map, arith, ap, subst, ◌⊎◌, inl, inr,
}
use mathlib.Core.List.{append-nil, append_assoc}
use borromean_rings.Base.Decimal.{strip, strip_left}
use borromean_rings.Base.Text.{is_space}
use borromean_rings.Words.{join_with, starts_with, cut_front, glue}
use borromean_rings.Quotes.{Reader, Marker, Quotation}
use borromean_rings.Quotes.Extract.{Scan, is_fence, parse_marker, blockquote_text, feed, feed_all}

-- A line of a blockquote.
abbrev pub quoted : String → String
quoted t = glue "> " t

abbrev scan : List Quotation → Option (List String) → ℕ → Bool → Scan
scan found pending at closed = record {
  found = found;
  pending = pending;
  pending_line = at;
  closed = closed;
  in_fence = false;
}

-- A line that is neither a fence nor of a blockquote.
abbrev IsOutside : String → Type 0
IsOutside line = (is_fence line ≡ false) × (starts_with line ">" ≡ false)

abbrev pub IsBlank : Reader → String → Type 0
IsBlank reader line =
    IsOutside line × (parse_marker reader line ≡ none) × ((strip line == "") ≡ true)

abbrev pub Marks : Reader → String → Marker → Type 0
Marks reader line marker = IsOutside line × (parse_marker reader line ≡ some marker)

-- The mark of a fence.
abbrev pub IsMark : String → Type 0
IsMark mark = (mark ≡ "```") ⊎ (mark ≡ "~~~")

abbrev pub first_char : String → String
first_char String.[] = ""
first_char (String.◌∷◌ c s) = String.◌∷◌ c ""

IsMark-opening : (mark info : String) → IsMark mark → is_fence (glue mark info) ≡ true
unfolding is_fence strip_left is_space starts_with cut_front
IsMark-opening mark info (inl e) = rw e refl
IsMark-opening mark info (inr e) = rw e refl

IsMark-closing : (mark : String) → IsMark mark → is_fence mark ≡ true
unfolding is_fence strip_left is_space starts_with cut_front
IsMark-closing mark (inl e) = rw e refl
IsMark-closing mark (inr e) = rw e refl

module _ (reader : Reader) where
  pub feed_all-append :
      (s : Scan) (n : ℕ) (xs ys : List String)
      → feed_all reader s n (xs ++ ys) ≡ feed_all reader (feed_all reader s n xs) (n + length xs) ys
  unfolding feed_all
  feed_all-append s n [] ys = let e : n + 0 ≡ n = omega arith in rw e refl
  feed_all-append s n (x ∷ xs) ys =
      feed_all-append (feed reader s n x) (suc n) xs ys
      ∙ ap (λ m. feed_all reader (feed_all reader (feed reader s n x) (suc n) xs) m ys)
          (omega arith)

  feed-opens :
      (found : List Quotation) (at : ℕ) (closed : Bool) (n : ℕ) (t : String)
      → feed reader (scan found none at closed) n (quoted t) ≡ scan found (some (t ∷ [])) n false
  unfolding feed is_fence strip_left is_space starts_with cut_front blockquote_text
  feed-opens found at closed n t = refl

  feed-goes_on :
      (found : List Quotation) (lines : List String) (at n : ℕ) (t : String)
      → feed reader (scan found (some lines) at false) n (quoted t)
        ≡ scan found (some (lines ++ t ∷ [])) at false
  unfolding feed is_fence strip_left is_space starts_with cut_front blockquote_text
  feed-goes_on found lines at n t = refl

  feed-blank :
      (found : List Quotation) (lines : List String) (at : ℕ) (closed : Bool) (n : ℕ)
      (line : String)
      → IsBlank reader line
      → feed reader (scan found (some lines) at closed) n line ≡ scan found (some lines) at true
  unfolding feed
  feed-blank found lines at closed n line ((a, b), c, d) = rw (a, b, c, d) refl

  feed-marker :
      (found : List Quotation) (lines : List String) (at : ℕ) (closed : Bool) (n : ℕ)
      (line : String) (marker : Marker)
      → Marks reader line marker
      → feed reader (scan found (some lines) at closed) n line
        ≡ scan
            (found ++ record { at = at; text = some (join_with "\n" lines); marker = marker } ∷ [])
            none
            at
            closed
  unfolding feed
  feed-marker found lines at closed n line marker ((a, b), c) = rw (a, b, c) refl

  -- What is left after the marker: the quotation is found, and no blockquote is open.
  abbrev pub Ends : Scan → List Quotation → Type 0
  Ends s found = (s.found ≡ found) × (s.pending ≡ none) × (s.in_fence ≡ false)

  step-Ends :
      (s s' : Scan) (n : ℕ) (line : String) (lines : List String) (found : List Quotation)
      → feed reader s n line ≡ s'
      → Ends (feed_all reader s' (suc n) lines) found
      → Ends (feed_all reader s n (line ∷ lines)) found
  unfolding feed_all
  step-Ends s s' n line lines found e h =
      subst (λ x. Ends (feed_all reader x (suc n) lines) found) (sym e) h

  blanks-Ends :
      (found : List Quotation) (lines : List String) (at : ℕ) (closed : Bool) (n : ℕ)
      (blanks : List String) (line : String) (marker : Marker)
      → All (IsBlank reader) blanks
      → Marks reader line marker
      → Ends
          (feed_all reader (scan found (some lines) at closed) n (blanks ++ line ∷ []))
          (found ++ record { at = at; text = some (join_with "\n" lines); marker = marker } ∷ [])
  unfolding feed_all
  blanks-Ends found lines at closed n [] line marker h m =
      rw (feed-marker found lines at closed n line marker m) (refl, refl, refl)
  blanks-Ends found lines at closed n (b ∷ blanks) line marker (h, hs) m =
      step-Ends (scan found (some lines) at closed) (scan found (some lines) at true) n b
        (blanks ++ line ∷ []) _ (feed-blank found lines at closed n b h)
        (blanks-Ends found lines at true (suc n) blanks line marker hs m)

  quotes-Ends :
      (found : List Quotation) (lines : List String) (at n : ℕ) (ts blanks : List String)
      (line : String) (marker : Marker)
      → All (IsBlank reader) blanks
      → Marks reader line marker
      → Ends
          (feed_all reader
            (scan found (some lines) at false)
            n
            (map quoted ts ++ (blanks ++ line ∷ [])))
          (found
            ++ record { at = at; text = some (join_with "\n" (lines ++ ts)); marker = marker } ∷ [])
  unfolding feed_all
  quotes-Ends found lines at n [] blanks line marker h m =
      rw (append-nil lines) (blanks-Ends found lines at false n blanks line marker h m)
  quotes-Ends found lines at n (t ∷ ts) blanks line marker h m =
      step-Ends (scan found (some lines) at false) (scan found (some (lines ++ t ∷ [])) at false) n
        (quoted t) (map quoted ts ++ (blanks ++ line ∷ [])) _ (feed-goes_on found lines at n t)
        (rw (sym (append_assoc lines (t ∷ []) ts))
          (quotes-Ends found (lines ++ t ∷ []) at (suc n) ts blanks line marker h m))

  -- Lines that are quoted one by one, blank lines, and a marker: extraction finds the lines again,
  -- joined by line feeds, at the number of the first of them, after whatever was found before. No
  -- blockquote may be open in front of them, nor a fence; neither a blank line nor the marker's is
  -- a fence or begins with the mark of a blockquote.
  pub feed_all-quoted :
      (found : List Quotation) (at : ℕ) (closed : Bool) (n : ℕ) (t : String)
      (ts blanks : List String) (line : String) (marker : Marker)
      → All (IsBlank reader) blanks
      → Marks reader line marker
      → Ends
          (feed_all reader
            (scan found none at closed)
            n
            (map quoted (t ∷ ts) ++ (blanks ++ line ∷ [])))
          (found ++ record { at = n; text = some (join_with "\n" (t ∷ ts)); marker = marker } ∷ [])
  unfolding feed_all
  feed_all-quoted found at closed n t ts blanks line marker h m =
      step-Ends (scan found none at closed) (scan found (some (t ∷ [])) n false) n (quoted t)
        (map quoted ts ++ (blanks ++ line ∷ [])) _ (feed-opens found at closed n t)
        (quotes-Ends found (t ∷ []) n (suc n) ts blanks line marker h m)

  unread :
      (s : Scan) (n : ℕ) (line : String)
      → s.in_fence ≡ true
      → is_fence line ≡ false
      → feed reader s n line ≡ s
  unfolding feed
  unread s n line f e = rw (e, f) refl

  toggled :
      (s : Scan) (n : ℕ) (line : String)
      → is_fence line ≡ true
      → feed reader s n line ≡ record s { in_fence = not s.in_fence; pending = none }
  unfolding feed
  toggled s n line e = rw e refl

  fence_opens :
      (s : Scan) (n : ℕ) (line : String)
      → s.in_fence ≡ false
      → is_fence line ≡ true
      → feed reader s n line ≡ record s { in_fence = true; pending = none }
  fence_opens s n line f e =
      toggled s n line e ∙ ap (λ b. record s { in_fence = not b; pending = none }) f

  body-skipped :
      (s : Scan) (n : ℕ) (body : List String)
      → s.in_fence ≡ true
      → All (λ line. is_fence line ≡ false) body
      → feed_all reader s n body ≡ s
  unfolding feed_all
  body-skipped s n [] f h = refl
  body-skipped s n (line ∷ body) f (e, h) =
      rw (unread s n line f e) (body-skipped s (suc n) body f h)

  between_fences :
      (s : Scan) (n : ℕ) (body : List String) (fence closing : String)
      → s.in_fence ≡ false
      → is_fence fence ≡ true
      → is_fence closing ≡ true
      → All (λ line. is_fence line ≡ false) body
      → Ends (feed_all reader s n (fence ∷ (body ++ closing ∷ []))) s.found
  unfolding feed_all
  between_fences s n body fence closing f e e' h =
      let opened : Scan = record s { in_fence = true; pending = none } in
      let after : ℕ = suc n + length body in
      step-Ends s opened n fence (body ++ closing ∷ []) s.found (fence_opens s n fence f e) (
        rw
          (
            feed_all-append opened (suc n) body (closing ∷ []),
            body-skipped opened (suc n) body refl h,
          )
          (step-Ends opened (record s { in_fence = false; pending = none }) after closing [] s.found
            (toggled opened after closing e') (refl, refl, refl)))

  -- A block between two fences of one mark leaves what was found as it is, whatever markers and
  -- blockquotes it has inside, and closes the blockquote in front of it. The mark is three backticks
  -- or three tildes, with an info text after the first that does not begin with another of them and
  -- nothing after the last, and no line between begins with either mark.
  pub feed_all-fenced :
      (s : Scan) (n : ℕ) (body : List String) (mark info : String)
      → s.in_fence ≡ false
      → IsMark mark
      → starts_with info (first_char mark) ≡ false
      → All (λ line. is_fence line ≡ false) body
      → Ends (feed_all reader s n (glue mark info ∷ (body ++ mark ∷ []))) s.found
  feed_all-fenced s n body mark info f m i h =
      between_fences s n body (glue mark info) mark f (IsMark-opening mark info m)
        (IsMark-closing mark m) h
