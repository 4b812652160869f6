-- ===== src/Quotes.antt =====
-- Quote fidelity (quotes.py): whether a quotation in a document is the text of the source that its
-- marker names.
pub mod Extract
pub mod Match
pub mod Verify
use borromean_rings.Base.{ℕ, String, Bool, Option, List}

-- The groups of the expression for a marker: a path, and the digits of the span's ends.
pub record Groups : Type 0 where
  pub span_path : String
  pub start_digits : String
  pub end_digits : Option String

-- What the source takes from `re`, `int` and `str`: the groups of a marker line, the number that a
-- run of digits has, and the alphanumeric characters. The ValueError of `int` for more than 4300
-- digits is left out: the lines of a marker are taken to have fewer.
pub record Reader : Type 0 where
  pub match_marker : String → Option Groups
  pub int_of : String → ℕ
  pub is_alnum : ℕ → Bool

-- A path relative to the repository, and a span of lines counted from 1.
pub record Marker : Type 0 where
  pub path : String
  pub first : ℕ
  pub last : ℕ

-- A marker in a document, with the blockquote that it follows, if any.
pub record Quotation : Type 0 where
  pub at : ℕ
  pub text : Option String
  pub marker : Marker
