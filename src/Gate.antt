-- ===== src/Gate.antt =====
-- The gate's verdict and what it records (verdict.py, evidence.py).
pub mod Status
pub mod Evidence
pub mod Verdict
pub mod History
pub mod Tally
pub mod Advisory
pub mod Latest
pub mod Label
