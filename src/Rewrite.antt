-- ===== src/Rewrite.antt =====
-- The rewrite contract: whether a reply opened with its reading of the prompt
-- (rewrite_contract.py).
pub mod Assess
pub mod Transcript
pub mod Tail
pub mod Recorded
use borromean_rings.Base.{ℕ, String, Option}

-- What is taken from `hashlib` and `str.lower`: the digest of a text in hexadecimal, and lower case.
pub record Tools : Type 0 where
  pub digest : String → String
  pub lower : String → String

pub record RewriteVerdict : Type 0 where
  pub status : String
  pub reason : String
  pub prompt_hash : String
  pub line : Option ℕ
  pub matched : String
