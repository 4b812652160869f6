-- ===== src/Provenance.antt =====
-- The provenance gate (provenance.py): runs of words that a changed text shares with a source.
pub mod Shingles
pub mod Index
pub mod Compare
